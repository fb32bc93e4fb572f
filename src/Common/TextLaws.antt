-- ===== src/Common/TextLaws.antt =====
-- Laws of Python's methods on texts: what is joined is split again, what is put in front is found there,
-- and what a text lacks is neither removed nor stripped.
use Prim.Native.Char.{Char, code}
use Prim.Native.Nat.{ℕ}
use Prim.Native.String.{String}
use mathlib.Core.Path.{◌≡◌, refl, sym, ap, ◌∙◌, subst}
use mathlib.Core.Bool.{Bool, true, false}
use mathlib.Core.List.{List, [], ◌∷◌}
use mathlib.Core.Logic.{◌≢◌, inl, inr}
use mathlib.Core.Option.{none, some}
use native.Mathlib.Omega.{arith}
use text.Mathlib.TextLemmas.{nil-append, cons-append}
use tugas3_sinkronisasi_dist.Common.Tests.{Bool-cases}
use tugas3_sinkronisasi_dist.Common.Equality.{◌==◌, nat_eq, beq_eq}
use tugas3_sinkronisasi_dist.Common.Lists.{All}
use tugas3_sinkronisasi_dist.Common.Text.{
  ◌⧺◌, split, join, lstrip, rstrip, strip, starts_with, text_length, remove_from, rsplit, Lacks,
  HasNone,
}

pub Lacks-append : (k : ℕ) (s t : String) → Lacks k s → Lacks k t → Lacks k (s ⧺ t)
Lacks-append k String.[] t h g = rw nil-append g
Lacks-append k (String.◌∷◌ c s) t (other, h) g = rw cons-append (other, Lacks-append k s t h g)

pub split_of_Lacks : (k : ℕ) (s : String) → Lacks k s → split k s ≡ s ∷ []
unfolding split
split_of_Lacks k String.[] h = refl
split_of_Lacks k (String.◌∷◌ c s) h = ground (arith, split_of_Lacks k s h.1, h.0)

pub split-append :
    (k : ℕ) (s t : String) (c : Char)
    → code c ≡ k
    → Lacks k s
    → split k (s ⧺ String.◌∷◌ c t) ≡ s ∷ split k t
unfolding split
split-append k String.[] t c e h = rw nil-append (ground (arith, e))
split-append k (String.◌∷◌ d s) t c e (other, h) =
    rw cons-append (ground (arith, split-append k s t c e h, other))

pub starts_with-append : (w s : String) → starts_with w (w ⧺ s) ≡ true
unfolding starts_with
starts_with-append String.[] s = refl
starts_with-append (String.◌∷◌ a w) s = rw cons-append (ground (arith, starts_with-append w s))

-- A text does not begin with a word that has a character the text lacks.
pub starts_with_of_Lacks :
    (k : ℕ) (w s : String) → (Lacks k w → ⊥) → Lacks k s → starts_with w s ≡ false
unfolding starts_with
starts_with_of_Lacks k String.[] s has h = absurd (has tt)
starts_with_of_Lacks k (String.◌∷◌ a w) String.[] has h = refl
starts_with_of_Lacks k (String.◌∷◌ a w) (String.◌∷◌ c s) has (other, h) =
    elim (Bool-cases (code a == code c)) [
      | inl same ↦
          let apart : code a ≢ k = λ e. other (sym (beq_eq (code a) (code c) same) ∙ e) in
          rw (starts_with_of_Lacks k w s (λ g. has (apart, g)) h, same) refl
      | inr differ ↦ rw differ refl
    ]

-- Removing a word changes nothing in a text that lacks one of the word's characters.
pub remove_from_of_Lacks :
    (k : ℕ) (a : Char) (w s : String)
    → (Lacks k (String.◌∷◌ a w) → ⊥)
    → Lacks k s
    → remove_from 0 a w s ≡ s
unfolding remove_from
remove_from_of_Lacks k a w String.[] has h = refl
remove_from_of_Lacks k a w (String.◌∷◌ c s) has h =
    rw (starts_with_of_Lacks k (String.◌∷◌ a w) (String.◌∷◌ c s) has h)
      (ap (String.◌∷◌ c) (remove_from_of_Lacks k a w s has h.1))

remove_from_skip :
    (a : Char) (w u s : String) → remove_from (text_length u) a w (u ⧺ s) ≡ remove_from 0 a w s
unfolding remove_from text_length
remove_from_skip a w String.[] s = rw nil-append refl
remove_from_skip a w (String.◌∷◌ c u) s = rw cons-append (remove_from_skip a w u s)

-- The word at the front is taken off.
pub remove_from-append :
    (a : Char) (w s : String) → remove_from 0 a w (String.◌∷◌ a w ⧺ s) ≡ remove_from 0 a w s
unfolding remove_from
remove_from-append a w s =
    let first : starts_with (String.◌∷◌ a w) (String.◌∷◌ a (w ⧺ s)) ≡ true =
      subst (λ x. starts_with (String.◌∷◌ a w) x ≡ true) (cons-append a w s)
        (starts_with-append (String.◌∷◌ a w) s) in
    rw (cons-append, first) (remove_from_skip a w w s)

-- The text before and after the last separator, where nothing behind it is one.
pub rsplit-append :
    (k : ℕ) (s t : String) (c : Char)
    → code c ≡ k
    → Lacks k t
    → rsplit k (s ⧺ String.◌∷◌ c t) ≡ some (s, t)
unfolding rsplit
rsplit-append k String.[] t c e h = rw (nil-append, rsplit, rsplit_of_Lacks t h) (ground (arith, e))
  where
    rsplit_of_Lacks : (t : String) → Lacks k t → rsplit k t ≡ none
    rsplit_of_Lacks String.[] h = refl
    rsplit_of_Lacks (String.◌∷◌ d t) (other, h) = ground (arith, other, rsplit_of_Lacks t h)
rsplit-append k (String.◌∷◌ d s) t c e h = rw (cons-append, rsplit, rsplit-append k s t c e h) refl

-- Joined parts are split again, if no part has the separator.
pub split-join :
    (k : ℕ) (c : Char) (part : String) (parts : List String)
    → code c ≡ k
    → All (Lacks k) (part ∷ parts)
    → split k (join (String.◌∷◌ c String.[]) (part ∷ parts)) ≡ part ∷ parts
unfolding join
split-join k c part [] e h = split_of_Lacks k part h.0
split-join k c part (next ∷ parts) e (lacks, h) =
    let rest = join (String.◌∷◌ c String.[]) (next ∷ parts) in
    let sep : String.◌∷◌ c String.[] ⧺ rest ≡ String.◌∷◌ c rest =
      cons-append c String.[] rest ∙ ap (String.◌∷◌ c) (nil-append rest) in
    rw sep
      (split-append k part rest c e lacks ∙ ap (λ ps. part ∷ ps) (split-join k c next parts e h))

pub strip_of_HasNone : (p : ℕ → Bool) (s : String) → HasNone p s → strip p s ≡ s
unfolding lstrip rstrip
strip_of_HasNone p s h = ap (rstrip p) (left s h) ∙ right s h
  where
    left : (s : String) → HasNone p s → lstrip p s ≡ s
    left String.[] h = refl
    left (String.◌∷◌ c s) (stays, h) = rw stays refl

    right : (s : String) → HasNone p s → rstrip p s ≡ s
    right String.[] h = refl
    right (String.◌∷◌ c s) (stays, h) = rw (stays, right s h) refl

pub HasNone-append : (p : ℕ → Bool) (s t : String) → HasNone p s → HasNone p t → HasNone p (s ⧺ t)
HasNone-append p String.[] t h g = rw nil-append g
HasNone-append p (String.◌∷◌ c s) t (stays, h) g = rw cons-append (stays, HasNone-append p s t h g)
