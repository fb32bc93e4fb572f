-- ===== src/Common/Equality.antt =====
-- Equality tests as an interface, with instances for numbers and texts.
use Prim.Native.Nat.{ℕ, compare, Ordering}
use Prim.Native.String.{String}
use mathlib.Core.Path.{◌≡◌, refl}
use mathlib.Core.Logic.{◌↔◌, ◌≢◌, ◌⊎◌}
use mathlib.Core.Bool.{Bool, true, false}
use mathlib.Core.Option.{Option, none, some}
use native.Mathlib.Omega.{arith}
use text.Mathlib.Text.{◌==◌ as str_eq}
use text.Mathlib.TextEquality.{eq_iff}

pub record HasSame {ℓ} (A : Type ℓ) : Type ℓ where
  pub same : A → A → Bool
  pub same_iff : (a b : A) → (same a b ≡ true) ↔ (a ≡ b)

infix 50 ◌==◌
abbrev pub ◌==◌ {ℓ} : {A : Type ℓ} ⦃e : HasSame A⦄ → A → A → Bool
◌==◌ ⦃e⦄ = e.same

abbrev pub nat_beq : ℕ → ℕ → Bool
nat_beq a b = elim (compare a b) [ Ordering.eq ↦ true | _ ↦ false ]

pub nat_beq_iff : (a b : ℕ) → (nat_beq a b ≡ true) ↔ (a ≡ b)
nat_beq_iff a b = ground arith

instance abbrev pub nat_eq : HasSame ℕ
nat_eq = record { same = nat_beq; same_iff = nat_beq_iff }

instance abbrev pub string_eq : HasSame String
string_eq = record { same = str_eq; same_iff = eq_iff }

module _ {ℓ} {A : Type ℓ} ⦃e : HasSame A⦄ where
  pub beq_refl : (a : A) → (a == a) ≡ true
  beq_refl a = (e.same_iff a a).1 refl

  pub beq_eq : (a b : A) → (a == b) ≡ true → a ≡ b
  beq_eq a b h = (e.same_iff a b).0 h

  pub beq_ne : (a b : A) → a ≢ b → (a == b) ≡ false
  beq_ne a b h = ground (arith, e.same_iff a b)

  pub ne_of_beq : (a b : A) → (a == b) ≡ false → a ≢ b
  ne_of_beq a b h p = ground (arith, e.same_iff a b)

-- the test `x is None or x == y` on an optional name
unfoldable pub none_or_eq {ℓ} : {A : Type ℓ} ⦃e : HasSame A⦄ → Option A → A → Bool
none_or_eq none a = true
none_or_eq (some b) a = b == a

pub none_or_eq_iff {ℓ} :
    {A : Type ℓ} ⦃e : HasSame A⦄ (o : Option A) (a : A)
    → (none_or_eq o a ≡ true) ↔ ((o ≡ none) ⊎ (o ≡ some a))
unfolding none_or_eq
none_or_eq_iff ⦃e⦄ none a = ground arith
none_or_eq_iff ⦃e⦄ (some b) a = ground (arith, e.same_iff b a)
