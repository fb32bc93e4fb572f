-- ===== src/Common/Ints.antt =====
-- Integers, and Python's `int(text)` on ASCII digits: white space around it, a sign, and underscores
-- between digits are allowed; `none` is the ValueError.
use Prim.Native.Char.{code}
use Prim.Native.Nat.{ℕ, zero, suc, ◌+◌, ◌-◌, ◌*◌}
use Prim.Native.String.{String}
use mathlib.Core.Bool.{Bool, true, false, ◌&&◌, ◌||◌}
use mathlib.Core.Option.{Option, none, some}
use tugas3_sinkronisasi_dist.Common.Tests.{if◌then◌else◌, leb, ltb, ◌>>=◌}
use tugas3_sinkronisasi_dist.Common.Equality.{◌==◌, nat_eq}
use tugas3_sinkronisasi_dist.Common.Text.{strip}

pub data ℤ : Type 0 where
  pos negsuc : ℕ → ℤ

-- `-n`, and `m - n`
unfoldable pub negate : ℕ → ℤ
negate zero = pos zero
negate (suc n) = negsuc n

unfoldable pub minus : ℕ → ℕ → ℤ
minus m n = if ltb m n then negsuc (n - m - 1) else pos (m - n)

infixl 40 ◌+ℤ◌
unfoldable pub ◌+ℤ◌ : ℤ → ℤ → ℤ
pos m +ℤ pos n = pos (m + n)
pos m +ℤ negsuc n = minus m (n + 1)
negsuc m +ℤ pos n = minus n (m + 1)
negsuc m +ℤ negsuc n = negsuc (m + n + 1)

unfoldable pub neg : ℤ → ℤ
neg (pos n) = negate n
neg (negsuc n) = pos (n + 1)

-- the white space that `strip()` takes off
unfoldable pub is_blank : (code : ℕ) → Bool
is_blank c =
    leb 9 c && leb c 13
    || leb 28 c && leb c 32
    || c == 133
    || c == 160
    || c == 5760
    || leb 8192 c && leb c 8202
    || c == 8232
    || c == 8233
    || c == 8239
    || c == 8287
    || c == 12288

-- the digits from one on, where `after_digit` says what came before
unfoldable pub digits_from : (n : ℕ) (after_digit : Bool) → String → Option ℕ
digits_from n after_digit String.[] = if after_digit then some n else none
digits_from n after_digit (String.◌∷◌ ch s) =
    let c = code ch in
    let longer = digits_from (n * 10 + (c - 48)) true s in
    let skipped = digits_from n false s in
    if leb 48 c && leb c 57 then longer else if c == b'_' && after_digit then skipped else none

unfoldable pub parse_signed : String → Option ℤ
parse_signed String.[] = none
parse_signed (String.◌∷◌ ch s) =
    if code ch == b'-'
    then (do n ← digits_from 0 false s; some (negate n))
    else if code ch == b'+'
    then (do n ← digits_from 0 false s; some (pos n))
    else do n ← digits_from 0 false (String.◌∷◌ ch s); some (pos n)

unfoldable pub parse_int : String → Option ℤ
parse_int text = parse_signed (strip is_blank text)
