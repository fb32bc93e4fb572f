-- ===== src/Replication/Order.antt =====
-- geo/replicator.py: `dominates` and `is_concurrent` decide the order of vector clocks.
use tugas3_sinkronisasi_dist.Common.{
  member-keys, ◌≤◌, String, Bool, true, false, not, ◌&&◌, ◌||◌, List, [], ◌∷◌, ltb, leb,
  if◌then◌else◌, is_some, string_eq, ◌==◌, keys, lookup, member, member-append, ◌≡◌, refl, ◌↔◌,
  arith, beq_eq, Bool-cases, inl, inr, ◌∙◌,
}
use tugas3_sinkronisasi_dist.Replication.Clocks.{
  VectorClock, count, compare_keys, all_keys, is_concurrent, dominates_keys, dominates,
}

-- No node has a higher count in the first clock.
unfoldable pub Before : VectorClock → VectorClock → Type 0
Before a b = (k : String) → count k a ≤ count k b

-- The test of `Before` at some keys.
unfoldable covers : List String → VectorClock → VectorClock → Bool
covers [] c other = true
covers (k ∷ ks) c other = let rest = covers ks c other in leb (count k other) (count k c) && rest

compare_keys_lem :
    (ks : List String) (c other : VectorClock) (s o : Bool)
    → compare_keys ks c other s o ≡ (covers ks c other && s, covers ks other c && o)
unfolding compare_keys covers
compare_keys_lem [] c other s o = refl
compare_keys_lem (k ∷ ks) c other s o =
    compare_keys_lem ks c other (if ltb (count k c) (count k other) then false else s)
      (if ltb (count k other) (count k c) then false else o)
    ∙ ground arith

dominates_keys_lem :
    (ks : List String) (c other : VectorClock) (d : Bool)
    → dominates_keys ks c other d ≡ (covers ks c other && (d || not (covers ks other c)))
unfolding dominates_keys covers
dominates_keys_lem [] c other d = ground arith
dominates_keys_lem (k ∷ ks) c other d =
    ground
      (arith, dominates_keys_lem ks c other (if ltb (count k other) (count k c) then true else d))

covers_at :
    (k : String) (ks : List String) (c other : VectorClock)
    → covers ks c other ≡ true
    → member k ks ≡ true
    → count k other ≤ count k c
unfolding covers member
covers_at k [] c other h m = absurd cc
covers_at k (j ∷ ks) c other h m = elim (Bool-cases (j == k)) [
  | inl same ↦ let e : j ≡ k = beq_eq j k same in rw (← e) (ground (arith, h))
  | inr other_key ↦ covers_at k ks c other (ground (arith, h)) (ground (arith, m, other_key))
]

covers_of_Before :
    (ks : List String) (c other : VectorClock) → Before other c → covers ks c other ≡ true
unfolding covers Before
covers_of_Before [] c other h = refl
covers_of_Before (k ∷ ks) c other h = ground (arith, h k, covers_of_Before ks c other h)

covers_iff :
    (ks : List String) (c other : VectorClock)
    → ((k : String) → is_some (lookup k other) ≡ true → member k ks ≡ true)
    → (covers ks c other ≡ true) ↔ Before other c
unfolding Before
covers_iff ks c other all = (
  λ h k. elim (Bool-cases (is_some (lookup k other))) [
    | inl there ↦ covers_at k ks c other h (all k there)
    | inr absent ↦ ground (arith, absent)
  ],
  λ h. covers_of_Before ks c other h,
)

all_keys_left :
    (c other : VectorClock)
    → (k : String) → is_some (lookup k c) ≡ true
    → member k (all_keys c other) ≡ true
all_keys_left c other k h = ground (arith, member-append k (keys c) (keys other), member-keys k c)

all_keys_right :
    (c other : VectorClock)
    → (k : String) → is_some (lookup k other) ≡ true
    → member k (all_keys c other) ≡ true
all_keys_right c other k h =
    ground (arith, member-append k (keys c) (keys other), member-keys k other)

both_iff :
    {P Q : Type 0}
    → (a b : Bool) → (a ≡ true) ↔ P
    → (b ≡ true) ↔ Q
    → (((a && (false || not b)) ≡ true) ↔ (P × ¬ Q))
      × (((not (a && true) && not (b && true)) ≡ true) ↔ (¬ P × ¬ Q))
both_iff true true p q =
    ((λ h. absurd cc, λ h. absurd (h.1 (q.0 refl))), (λ h. absurd cc, λ h. absurd (h.0 (p.0 refl))))
both_iff true false p q = (
  (λ h. (p.0 refl, (λ x. let e : false ≡ true = q.1 x in cc)), λ h. refl),
  (λ h. absurd cc, λ h. absurd (h.0 (p.0 refl))),
)
both_iff false true p q =
    ((λ h. absurd cc, λ h. absurd (h.1 (q.0 refl))), (λ h. absurd cc, λ h. absurd (h.1 (q.0 refl))))
both_iff false false p q = (
  (λ h. absurd cc, λ h. let e : false ≡ true = p.1 h.0 in absurd cc),
  (
    λ h. ((λ x. let e : false ≡ true = p.1 x in cc), (λ x. let e : false ≡ true = q.1 x in cc)),
    λ h. refl,
  ),
)

-- `dominates` holds exactly when the other clock is before this one and not the other way round, and
-- `is_concurrent` exactly when neither is before the other.
pub clocks_compare :
    (c other : VectorClock)
    → ((dominates c other ≡ true) ↔ (Before other c × ¬ Before c other))
      × ((is_concurrent c other ≡ true) ↔ (¬ Before other c × ¬ Before c other))
unfolding dominates is_concurrent
clocks_compare c other =
    let there = covers_iff (all_keys c other) c other (all_keys_right c other) in
    let back = covers_iff (all_keys c other) other c (all_keys_left c other) in
    rw
      (
        dominates_keys_lem (all_keys c other) c other false,
        compare_keys_lem (all_keys c other) c other true true,
      )
      (both_iff (covers (all_keys c other) c other) (covers (all_keys c other) other c) there back)
