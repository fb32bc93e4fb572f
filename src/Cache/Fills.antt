-- ===== src/Cache/Fills.antt =====
-- nodes/cache_node.py: a read that goes on after its broadcast.
use tugas3_sinkronisasi_dist.Common.{
  ℕ, String, false, Option, none, List, [], ◌∷◌, string_eq, nat_eq, ◌==◌, member, All, Bool-cases,
  ◌≡◌, refl, ap, ◌⊎◌, inl, inr, arith,
}
use tugas3_sinkronisasi_dist.Cache.{CacheNode, ReadReply, found_value, finish_read}
use tugas3_sinkronisasi_dist.Cache.Lru.{IsValid}
use tugas3_sinkronisasi_dist.Cache.Copies.{copy}
use tugas3_sinkronisasi_dist.Cache.Effects.{Agrees, finish_read-copy}
use tugas3_sinkronisasi_dist.Cache.Validity.{finish_read-IsValid}
use tugas3_sinkronisasi_dist.Cache.Coherence.{owns, owners, IsCoherent, Weaker}
use tugas3_sinkronisasi_dist.Cache.Places.{All-imp}
use tugas3_sinkronisasi_dist.Cache.Reads.{Shares, owners-none, Shares-IsCoherent}
use tugas3_sinkronisasi_dist.Cache.Single.{All-at_node, owners-All, weaken-IsCoherent}
use tugas3_sinkronisasi_dist.Cache.Network.{
  Mail, Network, fills, at_node, is_for, received, keep_mail, network_step,
}
use tugas3_sinkronisasi_dist.Cache.Sound.{IsFresh, IsSound, fewer-IsFresh, weaken-IsSound}
use tugas3_sinkronisasi_dist.Cache.Received.{found_value-received}

module _ {V : Type 0} where
  keep_mail-All :
      (P : Mail V → Type 0) (read : ℕ) (key : String) (ms : List (Mail V))
      → All P ms
      → All P (keep_mail read key ms)
  unfolding keep_mail
  keep_mail-All P read key [] h = tt
  keep_mail-All P read key (m ∷ ms) h = elim (Bool-cases (is_for read key m)) [
    | inl mine ↦ rw mine (keep_mail-All P read key ms h.1)
    | inr other ↦ rw other (h.0, keep_mail-All P read key ms h.1)
  ]

  -- Nobody owns the key, and the node that ends its read has a shared copy of the value at most.
  filled-Shares :
      (now : ℕ) (j : String) (v : Option V) (rs : List (Option (ReadReply V))) (n : CacheNode V)
      → (found_value none rs ≡ none) ⊎ (found_value none rs ≡ v)
      → Shares j v n
      → Shares j v (finish_read now j rs n).0
  filled-Shares now j v rs n known s =
      let filled = finish_read-IsValid now j rs n s.valid in
      elim (finish_read-copy now j j rs n s.valid.unique) [
        | inl gone ↦ record { valid = filled; agrees = rw gone tt; unowned = rw gone refl }
        | inr (inl kept) ↦ record {
          valid = filled;
          agrees = rw kept s.agrees;
          unowned = rw kept s.unowned;
        }
        | inr (inr (x, same, value, got)) ↦ record {
          valid = filled;
          agrees = rw got (elim known [ inl nothing ↦ absurd cc | inr e ↦ cc ]);
          unowned = rw got refl;
        }
      ]

  finish_read-none :
      (now : ℕ) (k : String) (rs : List (Option (ReadReply V))) (n : CacheNode V)
      → found_value none rs ≡ none
      → (finish_read now k rs n).0 ≡ n
  unfolding finish_read
  finish_read-none now k rs n e = rw (e, finish_read) refl

  other_fill-Weaker :
      (now : ℕ) (k j : String) (rs : List (Option (ReadReply V))) (n : CacheNode V)
      → IsValid n.cache
      → (k == j) ≡ false
      → Weaker (copy j n) (copy j (finish_read now k rs n).0)
  other_fill-Weaker now k j rs n w other = elim (finish_read-copy now k j rs n w.unique) [
    | inl gone ↦ inl gone
    | inr (inl kept) ↦ inr (inl kept)
    | inr (inr (x, same, value, got)) ↦ absurd cc
  ]

  Shares-All :
      (j : String) (v : Option V) (ns : List (CacheNode V))
      → IsCoherent j v ns
      → owners j ns ≡ 0
      → All (Shares j v) ns
  Shares-All j v ns c nobody = go ns c.valid c.agrees (owners-All j ns nobody)
    where
      go :
          (ns : List (CacheNode V))
          → All (λ n. IsValid n.cache) ns
          → All (λ n. Agrees v (copy j n)) ns
          → All (λ n. owns (copy j n) ≡ 0) ns
          → All (Shares j v) ns
      go [] w a u = tt
      go (n ∷ ns) w a u = (record { valid = w.0; agrees = a.0; unowned = u.0 }, go ns w.1 a.1 u.1)

  pub fills-IsSound :
      (now i read : ℕ) (j : String) (v : Option V) (bs : List ℕ) (told : List ℕ) (c : Network V)
      → IsSound j v told c
      → IsSound j v [] (network_step (fills now i read j bs) c)
  unfolding network_step
  fills-IsSound now i read j v bs told c s =
      let rs = received read j c.mail bs in
      let f = λ (n : CacheNode V). (finish_read now j rs n).0 in
      let kept = keep_mail-All (IsFresh j v c.nodes) read j c.mail s.fresh in
      elim (found_value-received read j v none c.nodes c.mail bs s.fresh (inl refl)) [
        | inl nothing ↦
            let (coherent, fewer) =
              weaken-IsCoherent j v i f c.nodes
                (λ n w. (
                  finish_read-IsValid now j rs n w,
                  inr (inl (ap (copy j) (finish_read-none now j rs n nothing))),
                ))
                s.coherent in
            record {
              coherent = coherent;
              silent = λ p n m at. absurd (unfold member in cc);
              fresh =
                  All-imp (IsFresh j v c.nodes) (IsFresh j v (at_node i f c.nodes))
                    (keep_mail read j c.mail)
                    (fewer-IsFresh j v c.nodes (at_node i f c.nodes) (λ e. omega (arith, fewer)))
                    kept;
            }
        | inr (known, nobody) ↦
            let shared : All (Shares j v) (at_node i f c.nodes) =
              All-at_node (Shares j v) (Shares j v) i f c.nodes
                (λ n h. filled-Shares now j v rs n (inr known) h) (λ n h. h)
                (Shares-All j v c.nodes s.coherent nobody) in
            let nobody' = owners-none j (at_node i f c.nodes) (
              All-imp (Shares j v) (λ n. owns (copy j n) ≡ 0) (at_node i f c.nodes)
                (λ n h. h.unowned) shared) in
            record {
              coherent = Shares-IsCoherent j v (at_node i f c.nodes) shared;
              silent = λ p n m at. absurd (unfold member in cc);
              fresh =
                  All-imp (IsFresh j v c.nodes) (IsFresh j v (at_node i f c.nodes))
                    (keep_mail read j c.mail)
                    (fewer-IsFresh j v c.nodes (at_node i f c.nodes) (λ e. nobody')) kept;
            }
      ]

  pub other_fills-IsSound :
      (now i read : ℕ) (k j : String) (v : Option V) (bs : List ℕ) (told : List ℕ) (c : Network V)
      → (k == j) ≡ false
      → IsSound j v told c
      → IsSound j v told (network_step (fills now i read k bs) c)
  unfolding network_step
  other_fills-IsSound now i read k j v bs told c other s =
      let rs = received read k c.mail bs in
      let f = λ (n : CacheNode V). (finish_read now k rs n).0 in
      let s' =
        weaken-IsSound j v told i f c
          (λ n w. (finish_read-IsValid now k rs n w, other_fill-Weaker now k j rs n w other)) s in
      record {
        coherent = s'.coherent;
        silent = s'.silent;
        fresh = keep_mail-All (IsFresh j v (at_node i f c.nodes)) read k c.mail s'.fresh;
      }
