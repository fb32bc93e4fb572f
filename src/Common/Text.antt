-- ===== src/Common/Text.antt =====
-- Python's methods on texts: `s.split(c)`, `sep.join(parts)`, `s.strip(…)`, `s.startswith(w)`,
-- `s.replace(w, "")` and `s.rsplit(c, 1)`. A character that separates is given by its code.
use Prim.Native.Char.{Char, code}
use Prim.Native.Nat.{ℕ, zero, suc}
use Prim.Native.String
use Prim.Native.String.{String}
use mathlib.Core.Path.{◌≡◌}
use mathlib.Core.Bool.{Bool, true, false, ◌&&◌}
use mathlib.Core.List.{List, [], ◌∷◌}
use mathlib.Core.Logic.{◌≢◌}
use mathlib.Core.Option.{Option, none, some}
use tugas3_sinkronisasi_dist.Common.Tests.{if◌then◌else◌}
use tugas3_sinkronisasi_dist.Common.Equality.{◌==◌, nat_eq}

infixr 6 ◌⧺◌
abbrev pub ◌⧺◌ : String → String → String
s ⧺ t = String.◌++◌ s t

abbrev pub is_empty : String → Bool
is_empty String.[] = true
is_empty (String.◌∷◌ c s) = false

abbrev pub before_first : Char → List String → List String
before_first c [] = []
before_first c (part ∷ parts) = String.◌∷◌ c part ∷ parts

unfoldable pub split : ℕ → String → List String
split sep String.[] = String.[] ∷ []
split sep (String.◌∷◌ c s) =
    let rest = split sep s in if code c == sep then String.[] ∷ rest else before_first c rest

unfoldable pub join : (sep : String) → List String → String
join sep [] = ""
join sep (part ∷ []) = part
join sep (part ∷ next ∷ parts) = part ⧺ (sep ⧺ join sep (next ∷ parts))

unfoldable pub lstrip : (ℕ → Bool) → String → String
lstrip p String.[] = String.[]
lstrip p (String.◌∷◌ c s) = if p (code c) then lstrip p s else String.◌∷◌ c s

unfoldable pub rstrip : (ℕ → Bool) → String → String
rstrip p String.[] = String.[]
rstrip p (String.◌∷◌ c s) =
    let rest = rstrip p s in if p (code c) && is_empty rest then String.[] else String.◌∷◌ c rest

abbrev pub strip : (ℕ → Bool) → String → String
strip p s = rstrip p (lstrip p s)

unfoldable pub starts_with : (word : String) → String → Bool
starts_with String.[] s = true
starts_with (String.◌∷◌ a w) String.[] = false
starts_with (String.◌∷◌ a w) (String.◌∷◌ c s) = code a == code c && starts_with w s

unfoldable pub text_length : String → ℕ
text_length String.[] = 0
text_length (String.◌∷◌ c s) = suc (text_length s)

-- `s.replace(w, "")`, where `a` begins the word `w` and `skip` characters of `s` are left of an
-- occurrence that has been met
unfoldable pub remove_from : (skip : ℕ) (a : Char) (w : String) → String → String
remove_from skip a w String.[] = String.[]
remove_from (suc n) a w (String.◌∷◌ c s) = remove_from n a w s
remove_from zero a w (String.◌∷◌ c s) =
    let removed = remove_from (text_length w) a w s in
    let kept = remove_from zero a w s in
    if starts_with (String.◌∷◌ a w) (String.◌∷◌ c s) then removed else String.◌∷◌ c kept

-- The text before and after the last `sep`, if there is one.
unfoldable pub rsplit : ℕ → String → Option (String × String)
rsplit sep String.[] = none
rsplit sep (String.◌∷◌ c s) = elim (rsplit sep s) [
  | some (front, back) ↦ some (String.◌∷◌ c front, back)
  | none ↦ if code c == sep then some (String.[], s) else none
]

-- The character is not in the text.
abbrev pub Lacks : ℕ → String → Type 0
Lacks k String.[] = Unit
Lacks k (String.◌∷◌ c s) = (code c ≢ k) × Lacks k s

-- No character of the text is one that is stripped.
abbrev pub HasNone : (ℕ → Bool) → String → Type 0
HasNone p String.[] = Unit
HasNone p (String.◌∷◌ c s) = (p (code c) ≡ false) × HasNone p s
