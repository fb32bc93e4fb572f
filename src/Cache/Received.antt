-- ===== src/Cache/Received.antt =====
-- nodes/cache_node.py: what the replies to a read offer.
use tugas3_sinkronisasi_dist.Common.{
  ℕ, String, true, Option, none, some, List, [], ◌∷◌, string_eq, nat_eq, ◌==◌, member, All,
  All-get_elem?, get_elem?, Bool-cases, Option-cases, beq_eq, ◌∙◌, ◌≡◌, refl, ap, ◌⊎◌, inl, inr,
  arith,
}
use tugas3_sinkronisasi_dist.Cache.{CacheNode, ReadReply, found, not_found, found_value}
use tugas3_sinkronisasi_dist.Cache.Effects.{offered}
use tugas3_sinkronisasi_dist.Cache.Coherence.{owners}
use tugas3_sinkronisasi_dist.Cache.Network.{Mail, is_for, received}
use tugas3_sinkronisasi_dist.Cache.Sound.{IsFresh}

module _ {V : Type 0} where
  -- Nothing, or the value while nobody owns the key.
  abbrev pub IsKnown : String → Option V → List (CacheNode V) → Option V → Type 0
  IsKnown j v ns w = (w ≡ none) ⊎ ((w ≡ v) × (owners j ns ≡ 0))

  found_one :
      (j : String) (v acc : Option V) (ns : List (CacheNode V)) (r : ReadReply V)
      (rs : List (Option (ReadReply V)))
      → (offered r ≡ none) ⊎ ((offered r ≡ some v) × (owners j ns ≡ 0))
      → IsKnown j v ns acc
      → ((w : Option V) → IsKnown j v ns w → IsKnown j v ns (found_value w rs))
      → IsKnown j v ns (found_value acc (some r ∷ rs))
  unfolding found_value
  found_one j v acc ns (found w state) rs o h rest =
      rest w (elim o [ inl e ↦ absurd cc | inr (e, nobody) ↦ inr (cc, nobody) ])
  found_one j v acc ns not_found rs o h rest = rest acc h

  about_key :
      (i : ℕ) (j : String) (v : Option V) (ns : List (CacheNode V)) (m : Mail V)
      → is_for i j m ≡ true
      → IsFresh j v ns m
      → (offered m.reply ≡ none) ⊎ ((offered m.reply ≡ some v) × (owners j ns ≡ 0))
  about_key i j v ns m mine (inl other) = absurd (ground (arith, mine, other))
  about_key i j v ns m mine (inr h) = h

  -- The reply at a position of the mail counts if it is for the read.
  received-cases :
      (i : ℕ) (j : String) (ms : List (Mail V)) (p : ℕ) (ps : List ℕ)
      → (received i j ms (p ∷ ps) ≡ received i j ms ps)
        ⊎ ((m : Mail V) × (get_elem? ms p ≡ some m)
            × (is_for i j m ≡ true)
            × (received i j ms (p ∷ ps) ≡ some m.reply ∷ received i j ms ps))
  unfolding received
  received-cases i j ms p ps = elim (Option-cases (get_elem? ms p)) [
    | inl nobody ↦ inl (rw (nobody, received) refl)
    | inr (m, at) ↦ elim (Bool-cases (is_for i j m)) [
      | inl mine ↦ inr (m, at, mine, rw (at, mine, received) refl)
      | inr other ↦ inl (rw (at, other, received) refl)
    ]
  ]

  pub found_value-received :
      (i : ℕ) (j : String) (v acc : Option V) (ns : List (CacheNode V)) (ms : List (Mail V))
      (ps : List ℕ)
      → All (IsFresh j v ns) ms
      → IsKnown j v ns acc
      → IsKnown j v ns (found_value acc (received i j ms ps))
  unfolding received found_value
  found_value-received i j v acc ns ms [] fresh h = h
  found_value-received i j v acc ns ms (p ∷ ps) fresh h = elim (received-cases i j ms p ps) [
    | inl e ↦ rw e (found_value-received i j v acc ns ms ps fresh h)
    | inr (m, at, mine, e) ↦ rw e (
        found_one j v acc ns m.reply (received i j ms ps)
          (about_key i j v ns m mine (All-get_elem? (IsFresh j v ns) ms p m at fresh)) h
          (λ w k. found_value-received i j v w ns ms ps fresh k))
  ]

  keep_one :
      (v : Option V) (r : ReadReply V) (rs : List (Option (ReadReply V)))
      → (offered r ≡ none) ⊎ (offered r ≡ some v)
      → found_value v rs ≡ v
      → found_value v (some r ∷ rs) ≡ v
  unfolding found_value
  keep_one v (found x state) rs (inl e) rest = absurd cc
  keep_one v (found x state) rs (inr e) rest = let same : x ≡ v = cc in rw same rest
  keep_one v not_found rs o rest = rest

  -- Once the value has been found, no reply of the mail brings another one.
  found_value-keeps :
      (i : ℕ) (j : String) (v : Option V) (ns : List (CacheNode V)) (ms : List (Mail V))
      (ps : List ℕ)
      → All (IsFresh j v ns) ms
      → found_value v (received i j ms ps) ≡ v
  unfolding received found_value
  found_value-keeps i j v ns ms [] fresh = refl
  found_value-keeps i j v ns ms (p ∷ ps) fresh = elim (received-cases i j ms p ps) [
    | inl e ↦ rw e (found_value-keeps i j v ns ms ps fresh)
    | inr (m, at, mine, e) ↦ rw e (
        keep_one v m.reply (received i j ms ps)
          (elim (about_key i j v ns m mine (All-get_elem? (IsFresh j v ns) ms p m at fresh)) [
            | inl nothing ↦ inl nothing
            | inr (offer, nobody) ↦ inr offer
          ])
          (found_value-keeps i j v ns ms ps fresh))
  ]

  found_here :
      (v acc : Option V) (r : ReadReply V) (rs : List (Option (ReadReply V)))
      → offered r ≡ some v
      → found_value v rs ≡ v
      → found_value acc (some r ∷ rs) ≡ v
  unfolding found_value
  found_here v acc (found x state) rs offer rest = let same : x ≡ v = cc in rw same rest
  found_here v acc not_found rs offer rest = absurd cc

  found_later :
      (v : Option V) (r : ReadReply V) (rs : List (Option (ReadReply V)))
      → ((a : Option V) → found_value a rs ≡ v)
      → (acc : Option V) → found_value acc (some r ∷ rs) ≡ v
  unfolding found_value
  found_later v (found x state) rs rest acc = rest x
  found_later v not_found rs rest acc = rest acc

  -- A reply with the value arrives, among any others.
  pub found_value-arrived :
      (i q : ℕ) (j : String) (v acc : Option V) (ns : List (CacheNode V)) (ms : List (Mail V))
      (m : Mail V) (ps : List ℕ)
      → All (IsFresh j v ns) ms
      → get_elem? ms q ≡ some m
      → is_for i j m ≡ true
      → offered m.reply ≡ some v
      → member q ps ≡ true
      → found_value acc (received i j ms ps) ≡ v
  unfolding member received found_value
  found_value-arrived i q j v acc ns ms m [] fresh at mine offer arrives = absurd cc
  found_value-arrived i q j v acc ns ms m (p ∷ ps) fresh at mine offer arrives =
      elim (Bool-cases (p == q)) [
        | inl here ↦
            let at' : get_elem? ms p ≡ some m = ap (get_elem? ms) (beq_eq p q here) ∙ at in
            rw (at', mine, received)
              (found_here v acc m.reply (received i j ms ps) offer
                (found_value-keeps i j v ns ms ps fresh))
        | inr there ↦
            let rest : (a : Option V) → found_value a (received i j ms ps) ≡ v =
              λ a. found_value-arrived i q j v a ns ms m ps fresh at mine offer cc in
            elim (received-cases i j ms p ps) [
              | inl e ↦ rw e (rest acc)
              | inr (m', at', his, e) ↦ rw e (found_later v m'.reply (received i j ms ps) rest acc)
            ]
      ]
