-- ===== src/Cache/Saves.antt =====
-- nodes/cache_node.py: a write that goes on after its broadcast.
use tugas3_sinkronisasi_dist.Common.{
  ℕ, zero, suc, ◌≤◌, ◌<◌, String, true, false, Option, none, some, List, [], ◌∷◌, string_eq, nat_eq,
  ◌==◌, get_elem?, length, member, All, Bool-cases, ◌≡◌, refl, ◌∙◌, inl, inr, arith, beq_eq,
  beq_refl, subst,
}
use tugas3_sinkronisasi_dist.Cache.{CacheNode, finish_write}
use tugas3_sinkronisasi_dist.Cache.Lru.{IsValid}
use tugas3_sinkronisasi_dist.Cache.Copies.{copy}
use tugas3_sinkronisasi_dist.Cache.Effects.{Agrees, finish_write-copy}
use tugas3_sinkronisasi_dist.Cache.Validity.{finish_write-IsValid}
use tugas3_sinkronisasi_dist.Cache.Coherence.{holders}
use tugas3_sinkronisasi_dist.Cache.Writes.{held-le}
use tugas3_sinkronisasi_dist.Cache.Single.{All-at_node}
use tugas3_sinkronisasi_dist.Cache.Network.{
  Mail, Network, saves, at_node, network_step, all_told, no_mail,
}
use tugas3_sinkronisasi_dist.Cache.Sound.{IsFresh, IsSound, weaken-IsSound}

all_told-member :
    (n i p : ℕ) (told : List ℕ)
    → all_told n i told ≡ true
    → p < n
    → (p == i) ≡ false
    → member p told ≡ true
unfolding all_told
all_told-member zero i p told h lt ne = absurd (omega arith)
all_told-member (suc q) i p told h lt ne = elim (Bool-cases (q == p)) [
  | inl here ↦
      let e : q ≡ p = beq_eq q p here in
      subst (λ p. member p told ≡ true) e (ground (arith, h, e, ne))
  | inr below ↦ all_told-member q i p told (ground (arith, h)) (ground (arith, lt, below)) ne
]

module _ {V : Type 0} where
  nowhere-lem :
      (j : String) (w : Option V) (ns : List (CacheNode V))
      → ((p : ℕ) (n : CacheNode V) → get_elem? ns p ≡ some n → copy j n ≡ none)
      → All (λ n. Agrees w (copy j n)) ns × (holders j ns ≡ 0)
  unfolding holders
  nowhere-lem j w [] h = (tt, refl)
  nowhere-lem j w (n ∷ ns) h =
      let (agrees, nobody) = nowhere-lem j w ns (λ p n at. h (suc p) n at) in
      let absent = h zero n refl in ((rw absent tt, agrees), rw absent (omega (arith, nobody)))

  -- The node that saves has the only copy.
  saved_alone :
      (j : String) (w : Option V) (i : ℕ) (f : CacheNode V → CacheNode V) (ns : List (CacheNode V))
      → ((p : ℕ) (n : CacheNode V) → (p == i) ≡ false → get_elem? ns p ≡ some n → copy j n ≡ none)
      → ((n : CacheNode V) → IsValid n.cache → Agrees w (copy j (f n)))
      → All (λ n. IsValid n.cache) ns
      → All (λ n. Agrees w (copy j n)) (at_node i f ns) × (holders j (at_node i f ns) ≤ 1)
  unfolding holders at_node
  saved_alone j w i f [] others saved valid = (tt, omega arith)
  saved_alone j w zero f (n ∷ ns) others saved valid =
      let (agrees, nobody) = nowhere-lem j w ns (λ p n at. others (suc p) n (ground arith) at) in
      ((saved n valid.0, agrees), omega (arith, nobody, held-le (copy j (f n))))
  saved_alone j w (suc i) f (n ∷ ns) others saved valid =
      let (agrees, one) =
        saved_alone j w i f ns (λ p n ne at. others (suc p) n (ground (arith, ne)) at) saved
          valid.1 in
      let absent = others zero n (ground arith) refl in
      ((rw absent tt, agrees), rw absent (omega (arith, one)))

  no_mail-All :
      (P : Mail V → Type 0) (j : String) (ms : List (Mail V))
      → ((m : Mail V) → (m.key == j) ≡ false → P m)
      → no_mail j ms ≡ true
      → All P ms
  unfolding no_mail
  no_mail-All P j [] h none_left = tt
  no_mail-All P j (m ∷ ms) h none_left =
      (h m (ground (arith, none_left)), no_mail-All P j ms h (ground (arith, none_left)))

  get_elem?-lt :
      (ns : List (CacheNode V)) (p : ℕ) (n : CacheNode V) → get_elem? ns p ≡ some n → p < length ns
  get_elem?-lt [] p n at = absurd cc
  get_elem?-lt (m ∷ ns) zero n at = omega arith
  get_elem?-lt (m ∷ ns) (suc p) n at = omega (arith, get_elem?-lt ns p n at)

  pub saves-IsSound :
      (now : ℕ) (i : ℕ) (j : String) (w v : Option V) (told : List ℕ) (c : Network V)
      → all_told (length c.nodes) i told ≡ true
      → no_mail j c.mail ≡ true
      → IsSound j v told c
      → IsSound j w [] (network_step (saves now i j w) c)
  unfolding network_step
  saves-IsSound now i j w v told c reached none_left s =
      let f = finish_write now j w in
      let (agrees, one) =
        saved_alone j w i f c.nodes
          (λ p n ne at.
            s.silent p n
              (all_told-member (length c.nodes) i p told reached (get_elem?-lt c.nodes p n at) ne)
              at)
          (λ n u. elim (finish_write-copy now j j w n u.unique) [
            | inl gone ↦ rw gone tt
            | inr kept ↦ rw (kept, beq_refl j) refl
          ])
          s.coherent.valid in
      record {
        coherent = record {
          valid =
              All-at_node (λ n. IsValid n.cache) (λ n. IsValid n.cache) i f c.nodes
                (λ n u. finish_write-IsValid now j w n u) (λ n u. u) s.coherent.valid;
          agrees = agrees;
          alone = λ some_owner. one;
        };
        silent = λ p n m at. absurd (unfold member in cc);
        fresh = no_mail-All (IsFresh j w (at_node i f c.nodes)) j c.mail (λ m e. inl e) none_left;
      }

  pub other_saves-IsSound :
      (now : ℕ) (i : ℕ) (k j : String) (w v : Option V) (told : List ℕ) (c : Network V)
      → (k == j) ≡ false
      → IsSound j v told c
      → IsSound j v told (network_step (saves now i k w) c)
  unfolding network_step
  other_saves-IsSound now i k j w v told c other s =
      weaken-IsSound j v told i (finish_write now k w) c
        (λ n u. (
          finish_write-IsValid now k w n u,
          elim (finish_write-copy now k j w n u.unique) [
            | inl gone ↦ inl gone
            | inr kept ↦ inr (inl (kept ∙ rw other refl))
          ],
        ))
        s
