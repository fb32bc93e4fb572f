-- ===== src/Common/Sets.antt =====
-- Python sets as lists with no element twice: `x in s`, `s.add(x)`, `s.discard(x)`.
use Prim.Native.Nat.{◌≤◌}
use mathlib.Core.Path.{◌≡◌, refl}
use mathlib.Core.Bool.{Bool, true, false}
use mathlib.Core.List.{List, [], ◌∷◌, ◌++◌}
use mathlib.Core.Logic.{◌≢◌, inl, inr}
use native.Mathlib.Omega.{arith}
use tugas3_sinkronisasi_dist.Common.Tests.{if◌then◌else◌, Bool-cases, is_some}
use tugas3_sinkronisasi_dist.Common.Equality.{HasSame, ◌==◌}
use tugas3_sinkronisasi_dist.Common.Lists.{length}
use tugas3_sinkronisasi_dist.Common.Dicts.{Dict, keys, lookup}

module _ {ℓ} {A : Type ℓ} ⦃e : HasSame A⦄ where
  unfoldable pub member : A → List A → Bool
  member a [] = false
  member a (x ∷ xs) = if x == a then true else member a xs

  unfoldable pub add : A → List A → List A
  add a xs = if member a xs then xs else xs ++ a ∷ []

  unfoldable pub discard : A → List A → List A
  discard a [] = []
  discard a (x ∷ xs) = let rest = discard a xs in if x == a then rest else x ∷ rest

  pub member-append :
      (a : A) (xs ys : List A) → member a (xs ++ ys) ≡ (if member a xs then true else member a ys)
  unfolding member
  member-append a [] ys = refl
  member-append a (x ∷ xs) ys = ground (arith, member-append a xs ys)

  pub member-snoc :
      (a b : A) (xs : List A) → member a (xs ++ b ∷ []) ≡ (if member a xs then true else b == a)
  unfolding member
  member-snoc a b [] = ground arith
  member-snoc a b (x ∷ xs) = ground (arith, member-snoc a b xs)

  pub member-add :
      (a b : A) (xs : List A) → member b (add a xs) ≡ (if a == b then true else member b xs)
  unfolding add member
  member-add a b xs = ground (arith, member-append b xs (a ∷ []), e.same_iff a b)

  pub member-discard :
      (a b : A) (xs : List A) → member b (discard a xs) ≡ (if a == b then false else member b xs)
  unfolding discard member
  member-discard a b [] = ground arith
  member-discard a b (x ∷ xs) =
      ground (arith, member-discard a b xs, e.same_iff x a, e.same_iff x b, e.same_iff a b)

  pub length-discard-le : (a : A) (xs : List A) → length (discard a xs) ≤ length xs
  unfolding discard
  length-discard-le a [] = omega arith
  length-discard-le a (x ∷ xs) = ground (arith, length-discard-le a xs)

  pub add-ne-nil : (a : A) (xs : List A) → add a xs ≢ []
  unfolding add member
  add-ne-nil a [] h = cc
  add-ne-nil a (x ∷ xs) h = elim (Bool-cases (member a (x ∷ xs))) [
    | inl old ↦ ground (arith, old)
    | inr new ↦ ground (arith, new)
  ]

pub member-keys {ℓ κ} :
    {K : Type ℓ} {V : Type κ} ⦃e : HasSame K⦄ (k : K) (d : Dict K V)
    → member k (keys d) ≡ is_some (lookup k d)
unfolding member lookup
member-keys ⦃e⦄ k [] = refl
member-keys ⦃e⦄ k ((j, v) ∷ d) = ground (arith, member-keys k d)
