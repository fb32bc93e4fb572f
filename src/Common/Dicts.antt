-- ===== src/Common/Dicts.antt =====
-- Python dictionaries as association lists in insertion order: `d.get(k)`, `d[k] = v`,
-- `d.pop(k, None)`, `k in d`.
use mathlib.Core.Path.{◌≡◌, refl}
use mathlib.Core.Bool.{Bool}
use mathlib.Core.List.{List, [], ◌∷◌, ◌++◌, map}
use mathlib.Core.Option.{Option, none, some}
use mathlib.Core.Logic.{inl, inr}
use native.Mathlib.Omega.{arith}
use tugas3_sinkronisasi_dist.Common.Tests.{if◌then◌else◌, is_some, Bool-cases}
use tugas3_sinkronisasi_dist.Common.Equality.{HasSame, ◌==◌}

abbrev pub Dict {ℓ κ} : Type ℓ → Type κ → Type (ℓ ⊔ κ)
Dict K V = List (K × V)

module _ {ℓ κ} {K : Type ℓ} {V : Type κ} where
  abbrev pub keys : Dict K V → List K
  keys = map (λ e. e.0)

  abbrev pub values : Dict K V → List V
  values = map (λ e. e.1)

module _ {ℓ κ} {K : Type ℓ} {V : Type κ} ⦃e : HasSame K⦄ where
  unfoldable pub lookup : K → Dict K V → Option V
  lookup k [] = none
  lookup k ((j, v) ∷ d) = if j == k then some v else lookup k d

  abbrev pub has_key : K → Dict K V → Bool
  has_key k d = is_some (lookup k d)

  -- `d[k] = v` keeps the place of a key that is there
  unfoldable pub insert : K → V → Dict K V → Dict K V
  insert k v [] = (k, v) ∷ []
  insert k v ((j, w) ∷ d) = if j == k then (j, v) ∷ d else (j, w) ∷ insert k v d

  unfoldable pub pop : K → Dict K V → Dict K V
  pop k [] = []
  pop k ((j, v) ∷ d) = let rest = pop k d in if j == k then rest else (j, v) ∷ rest

  pub lookup-insert :
      (k j : K) (v : V) (d : Dict K V)
      → lookup j (insert k v d) ≡ (if k == j then some v else lookup j d)
  unfolding lookup insert
  lookup-insert k j v [] = refl
  lookup-insert k j v ((i, w) ∷ d) =
      ground (arith, e.same_iff k j, e.same_iff i k, e.same_iff i j, lookup-insert k j v d)

  pub lookup-pop :
      (k j : K) (d : Dict K V) → lookup j (pop k d) ≡ (if k == j then none else lookup j d)
  unfolding lookup pop
  lookup-pop k j [] = ground arith
  lookup-pop k j ((i, v) ∷ d) =
      ground (arith, lookup-pop k j d, e.same_iff i k, e.same_iff i j, e.same_iff k j)

module _ {ℓ κ} {K : Type ℓ} {V : Type κ} where
  unfoldable pub map_values : (V → V) → Dict K V → Dict K V
  map_values f [] = []
  map_values f ((k, v) ∷ d) = (k, f v) ∷ map_values f d

module _ {ℓ κ} {K : Type ℓ} {V : Type κ} ⦃e : HasSame K⦄ where
  pub lookup-map_values :
      (f : V → V) (k : K) (d : Dict K V)
      → lookup k (map_values f d) ≡ elim (lookup k d) [ none ↦ none | some v ↦ some (f v) ]
  unfolding lookup map_values
  lookup-map_values f k [] = refl
  lookup-map_values f k ((j, v) ∷ d) = ground (arith, lookup-map_values f k d)

  pub map_values-insert :
      (f : V → V) (k : K) (v : V) (d : Dict K V)
      → map_values f (insert k v d) ≡ insert k (f v) (map_values f d)
  unfolding insert map_values
  map_values-insert f k v [] = refl
  map_values-insert f k v ((j, w) ∷ d) = ground (arith, map_values-insert f k v d)

module _ {ℓ κ} {K : Type ℓ} {V : Type κ} ⦃e : HasSame K⦄ where
  -- No key stands twice.
  abbrev pub IsUnique : Dict K V → Type κ
  IsUnique [] = Unit
  IsUnique ((k, l) ∷ d) = (lookup k d ≡ none) × IsUnique d

  -- Putting an absent key at the end
  pub insert-absent :
      (k : K) (v : V) (d : Dict K V) → lookup k d ≡ none → insert k v d ≡ d ++ (k, v) ∷ []
  unfolding insert lookup
  insert-absent k v [] a = refl
  insert-absent k v ((j, w) ∷ d) a = ground (arith, insert-absent k v d)

  pub lookup-append :
      (j k : K) (l : V) (d : Dict K V)
      → lookup j (d ++ (k, l) ∷ [])
        ≡ elim (lookup j d) [ some x ↦ some x | none ↦ if k == j then some l else none ]
  unfolding lookup
  lookup-append j k l [] = ground arith
  lookup-append j k l ((i, x) ∷ d) = ground (arith, lookup-append j k l d)

  -- Whether a key is there does not turn on the other keys.
  pub IsUnique-pop : (k : K) (d : Dict K V) → IsUnique d → IsUnique (pop k d)
  unfolding pop
  IsUnique-pop k [] u = tt
  IsUnique-pop k ((i, x) ∷ d) u = elim (Bool-cases (i == k)) [
    | inl same ↦ rw same (IsUnique-pop k d u.1)
    | inr other ↦ rw other (ground (arith, lookup-pop k i d, u.0), IsUnique-pop k d u.1)
  ]

  pub IsUnique-append :
      (k : K) (l : V) (d : Dict K V) → lookup k d ≡ none → IsUnique d → IsUnique (d ++ (k, l) ∷ [])
  unfolding lookup
  IsUnique-append k l [] a u = (refl, tt)
  IsUnique-append k l ((i, x) ∷ d) a u = (
    ground (arith, lookup-append i k l d, u.0, a, e.same_iff i i, e.same_iff k i),
    IsUnique-append k l d (ground (arith, a)) u.1,
  )

  pub IsUnique-insert : (k : K) (l : V) (d : Dict K V) → IsUnique d → IsUnique (insert k l d)
  unfolding insert lookup
  IsUnique-insert k l [] u = (refl, tt)
  IsUnique-insert k l ((i, x) ∷ d) u = elim (Bool-cases (i == k)) [
    | inl same ↦ rw same u
    | inr other ↦ rw other (
      ground (arith, lookup-insert k i l d, u.0, e.same_iff k i, other, e.same_iff i k),
      IsUnique-insert k l d u.1,
    )
  ]
