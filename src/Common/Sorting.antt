-- ===== src/Common/Sorting.antt =====
-- Python's `sorted` on numbers.
use Prim.Native.Nat.{ℕ, ◌≤◌}
use mathlib.Core.Path.{◌≡◌, refl}
use mathlib.Core.Bool.{true}
use mathlib.Core.List.{List, [], ◌∷◌}
use mathlib.Core.Logic.{inl, inr}
use native.Mathlib.Omega.{arith}
use tugas3_sinkronisasi_dist.Common.Tests.{if◌then◌else◌, leb, Bool-cases}
use tugas3_sinkronisasi_dist.Common.Equality.{◌==◌, nat_eq}
use tugas3_sinkronisasi_dist.Common.Sets.{member}
use tugas3_sinkronisasi_dist.Common.Lists.{All}

unfoldable pub place : ℕ → List ℕ → List ℕ
place a [] = a ∷ []
place a (x ∷ xs) = let rest = place a xs in if leb a x then a ∷ x ∷ xs else x ∷ rest

unfoldable pub sorted : List ℕ → List ℕ
sorted [] = []
sorted (x ∷ xs) = place x (sorted xs)

abbrev pub IsSorted : List ℕ → Type 0
IsSorted [] = Unit
IsSorted (x ∷ xs) = All (λ y. x ≤ y) xs × IsSorted xs

pub member-place :
    (a b : ℕ) (xs : List ℕ) → member b (place a xs) ≡ (if a == b then true else member b xs)
unfolding place member
member-place a b [] = ground arith
member-place a b (x ∷ xs) = ground (arith, member-place a b xs)

pub member-sorted : (b : ℕ) (xs : List ℕ) → member b (sorted xs) ≡ member b xs
unfolding sorted member
member-sorted b [] = refl
member-sorted b (x ∷ xs) = ground (arith, member-place x b (sorted xs), member-sorted b xs)

All-place : (m a : ℕ) (xs : List ℕ) → m ≤ a → All (λ y. m ≤ y) xs → All (λ y. m ≤ y) (place a xs)
unfolding place
All-place m a [] le h = (le, tt)
All-place m a (x ∷ xs) le h = elim (Bool-cases (leb a x)) [
  | inl first ↦ rw first (le, h)
  | inr later ↦ rw later (h.0, All-place m a xs le h.1)
]

All-le : (a x : ℕ) (xs : List ℕ) → a ≤ x → All (λ y. x ≤ y) xs → All (λ y. a ≤ y) xs
All-le a x [] le h = tt
All-le a x (y ∷ xs) le h = (omega (arith, le, h.0), All-le a x xs le h.1)

place-IsSorted : (a : ℕ) (xs : List ℕ) → IsSorted xs → IsSorted (place a xs)
unfolding place
place-IsSorted a [] h = (tt, tt)
place-IsSorted a (x ∷ xs) h = elim (Bool-cases (leb a x)) [
  | inl first ↦ let le : a ≤ x = ground arith in rw first ((le, All-le a x xs le h.0), h)
  | inr later ↦
      let le : x ≤ a = ground arith in rw later (All-place x a xs le h.0, place-IsSorted a xs h.1)
]

pub sorted-IsSorted : (xs : List ℕ) → IsSorted (sorted xs)
unfolding sorted
sorted-IsSorted [] = tt
sorted-IsSorted (x ∷ xs) = place-IsSorted x (sorted xs) (sorted-IsSorted xs)
