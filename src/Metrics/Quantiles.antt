-- ===== src/Metrics/Quantiles.antt =====
-- utils/metrics.py: the quantiles of a histogram are observations, in order.
use tugas3_sinkronisasi_dist.Common.{
  ℕ, zero, suc, ◌-◌, ◌*◌, ◌/◌, ◌≤◌, ◌<◌, min, true, some, List, [], ◌∷◌, length, get_elem?, nat_eq,
  sorted, place, IsSorted, sorted-IsSorted, member, member-sorted, All-get_elem?,
  get_elem?-is_some_of_lt, ◌≡◌, refl, sym, ap, ◌∙◌, arith, beq_refl,
}
use tugas3_sinkronisasi_dist.Metrics.{at_most_percent, summarise}

length-place : (a : ℕ) (xs : List ℕ) → length (place a xs) ≡ suc (length xs)
unfolding place
length-place a [] = refl
length-place a (x ∷ xs) = ground (arith, length-place a xs)

length-sorted : (xs : List ℕ) → length (sorted xs) ≡ length xs
unfolding sorted
length-sorted [] = refl
length-sorted (x ∷ xs) = length-place x (sorted xs) ∙ ap suc (length-sorted xs)

IsSorted-get_elem? :
    (xs : List ℕ) (i j a b : ℕ)
    → IsSorted xs
    → i ≤ j
    → get_elem? xs i ≡ some a
    → get_elem? xs j ≡ some b
    → a ≤ b
IsSorted-get_elem? [] i j a b s le at at' = absurd cc
IsSorted-get_elem? (x ∷ xs) zero zero a b s le at at' = ground (arith, at, at')
IsSorted-get_elem? (x ∷ xs) zero (suc j) a b s le at at' =
    let above : x ≤ b = All-get_elem? (λ y. x ≤ y) xs j b at' s.0 in ground (arith, at, above)
IsSorted-get_elem? (x ∷ xs) (suc i) zero a b s le at at' = absurd (omega (arith, le))
IsSorted-get_elem? (x ∷ xs) (suc i) (suc j) a b s le at at' =
    IsSorted-get_elem? xs i j a b s.1 (omega (arith, le)) at at'

get_elem?-member : (xs : List ℕ) (i a : ℕ) → get_elem? xs i ≡ some a → member a xs ≡ true
unfolding member
get_elem?-member [] i a h = absurd cc
get_elem?-member (x ∷ xs) zero a h = ground (arith, h, beq_refl a)
get_elem?-member (x ∷ xs) (suc i) a h = ground (arith, get_elem?-member xs i a h)

-- An element of the sorted observations, by its index.
nth :
    (obs : List ℕ) (i : ℕ)
    → i < length obs
    → (a : ℕ) × (get_elem? (sorted obs) i ≡ some a) × (member a obs ≡ true)
nth obs i lt =
    let (a, at) = get_elem?-is_some_of_lt (sorted obs) i (omega (arith, lt, length-sorted obs)) in
    (a, at, sym (member-sorted a obs) ∙ get_elem?-member (sorted obs) i a at)

-- A summary of at least one observation has the three quantiles: they are observations and in order, and
-- the text output shows the same ones.
pub summary_in_order :
    (o : ℕ) (obs : List ℕ)
    → let s = summarise (o ∷ obs) in
      (a : ℕ) × (b : ℕ) × (c : ℕ) × (s.p50 ≡ some a)
      × (s.p95 ≡ some b)
      × (s.p99 ≡ some c)
      × (a ≤ b)
      × (b ≤ c)
      × (member a (o ∷ obs) ≡ true)
      × (member b (o ∷ obs) ≡ true)
      × (member c (o ∷ obs) ≡ true)
      × (at_most_percent 50 (o ∷ obs) ≡ s.p50)
      × (at_most_percent 95 (o ∷ obs) ≡ s.p95)
unfolding summarise
summary_in_order o obs =
    let all = o ∷ obs in
    let n = length all in
    let some_left : 1 ≤ n = omega arith in
    let (a, at_a, in_a) = nth all (n / 2) (omega (arith, some_left)) in
    let (b, at_b, in_b) = nth all (n * 95 / 100) (omega (arith, some_left)) in
    let (c, at_c, in_c) = nth all (min (n * 99 / 100) (n - 1)) (omega (arith, some_left)) in
    let ordered = IsSorted-get_elem? (sorted all) in
    let s = sorted-IsSorted all in
    (
      a,
      b,
      c,
      at_a,
      at_b,
      at_c,
      ordered (n / 2) (n * 95 / 100) a b s (omega (arith, some_left)) at_a at_b,
      ordered (n * 95 / 100) (min (n * 99 / 100) (n - 1)) b c s (omega (arith, some_left)) at_b
          at_c,
      in_a,
      in_b,
      in_c,
      ap (get_elem? (sorted all)) (omega (arith, some_left)),
      ap (get_elem? (sorted all)) (omega (arith, some_left)),
    )
