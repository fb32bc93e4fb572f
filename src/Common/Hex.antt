-- ===== src/Common/Hex.antt =====
-- `bytes.hex()` and `bytes.fromhex(text)`, which is `none` where Python raises.
use Prim.Native.Char.{Char, code}
use Prim.Native.Nat.{ℕ, zero, suc, ◌+◌, ◌-◌, ◌*◌, ◌/◌, ◌%◌, ◌<◌}
use Prim.Native.String.{String}
use mathlib.Core.Path.{◌≡◌, refl, sym, ap, subst}
use mathlib.Core.Bool.{Bool, ◌&&◌, ◌||◌, false}
use mathlib.Core.List.{List, [], ◌∷◌}
use mathlib.Core.Logic.{◌≢◌, inl, inr}
use mathlib.Core.Option.{Option, none, some}
use native.Mathlib.Omega.{arith}
use tugas3_sinkronisasi_dist.Common.Tests.{if◌then◌else◌, leb, Bool-cases, ◌>>=◌}
use tugas3_sinkronisasi_dist.Common.Equality.{◌==◌, nat_eq, beq_eq}
use tugas3_sinkronisasi_dist.Common.Lists.{All}
use tugas3_sinkronisasi_dist.Common.Text.{Lacks}

unfoldable pub hex_digit : ℕ → Char
hex_digit n =
    if n == 0
    then "0"
    else if n == 1
    then "1"
    else if n == 2
    then "2"
    else if n == 3
    then "3"
    else if n == 4
    then "4"
    else if n == 5
    then "5"
    else if n == 6
    then "6"
    else if n == 7
    then "7"
    else if n == 8
    then "8"
    else if n == 9
    then "9"
    else if n == 10
    then "a"
    else if n == 11
    then "b"
    else if n == 12
    then "c"
    else if n == 13
    then "d"
    else if n == 14
    then "e"
    else "f"

unfoldable pub hex : List ℕ → String
hex [] = String.[]
hex (b ∷ bs) = String.◌∷◌ (hex_digit (b / 16)) (String.◌∷◌ (hex_digit (b % 16)) (hex bs))

unfoldable pub digit_value : (code : ℕ) → Option ℕ
digit_value c =
    if leb b'0' c && leb c b'9'
    then some (c - 48)
    else if leb b'a' c && leb c b'f'
    then some (c - 87)
    else if leb b'A' c && leb c b'F'
    then some (c - 55)
    else none

-- ASCII white space, which `fromhex` skips between bytes
unfoldable pub is_space : (code : ℕ) → Bool
is_space c = c == 32 || leb 9 c && leb c 13

unfoldable pub fromhex : String → Option (List ℕ)
fromhex String.[] = some []
fromhex (String.◌∷◌ c String.[]) = if is_space (code c) then some [] else none
fromhex (String.◌∷◌ c (String.◌∷◌ d s)) =
    let skipped = fromhex (String.◌∷◌ d s) in
    let rest = fromhex s in
    if is_space (code c) then skipped else do
      high ← digit_value (code c)
      low ← digit_value (code d)
      bs ← rest
      some ((high * 16 + low) ∷ bs)

-- A predicate that holds of 0, 1, … up to a number.
abbrev Below : (P : ℕ → Type 0) → ℕ → Type 0
Below P zero = Unit
Below P (suc n) = P n × Below P n

Below-at : (P : ℕ → Type 0) (n m : ℕ) → Below P n → m < n → P m
Below-at P zero m h lt = absurd (omega arith)
Below-at P (suc n) m h lt = elim (Bool-cases (m == n)) [
  | inl same ↦ subst P (sym (beq_eq m n same)) h.0
  | inr differ ↦ Below-at P n m h.1 (ground arith)
]

abbrev RoundTrips : ℕ → Type 0
RoundTrips n = (digit_value (code (hex_digit n)) ≡ some n) × (is_space (code (hex_digit n)) ≡ false)

hex_digit-RoundTrips : (n : ℕ) → n < 16 → RoundTrips n
unfolding digit_value hex_digit is_space
hex_digit-RoundTrips n h =
    Below-at RoundTrips 16 n
      (
        (refl, refl),
        (
          (refl, refl),
          (
            (refl, refl),
            (
              (refl, refl),
              (
                (refl, refl),
                (
                  (refl, refl),
                  (
                    (refl, refl),
                    (
                      (refl, refl),
                      (
                        (refl, refl),
                        (
                          (refl, refl),
                          (
                            (refl, refl),
                            (
                              (refl, refl),
                              ((refl, refl), ((refl, refl), ((refl, refl), ((refl, refl), tt)))),
                            ),
                          ),
                        ),
                      ),
                    ),
                  ),
                ),
              ),
            ),
          ),
        ),
      )
      h

-- What is written in hex is read back.
pub fromhex-hex : (bs : List ℕ) → All (λ b. b < 256) bs → fromhex (hex bs) ≡ some bs
unfolding fromhex hex
fromhex-hex [] h = refl
fromhex-hex (b ∷ bs) (small, h) =
    let high = hex_digit-RoundTrips (b / 16) (omega arith) in
    let low = hex_digit-RoundTrips (b % 16) (omega arith) in
    rw (high.0, high.1, low.0, fromhex-hex bs h) (ap (λ (n : ℕ). some (n ∷ bs)) (omega arith))

-- A hexadecimal text lacks what is no digit.
hex_digit-ne : (n k : ℕ) → n < 16 → digit_value k ≡ none → code (hex_digit n) ≢ k
hex_digit-ne n k small h e =
    let read = (hex_digit-RoundTrips n small).0 in
    let same : digit_value (code (hex_digit n)) ≡ digit_value k = ap digit_value e in cc

pub hex-Lacks :
    (k : ℕ) (bs : List ℕ) → All (λ b. b < 256) bs → digit_value k ≡ none → Lacks k (hex bs)
unfolding hex
hex-Lacks k [] small h = tt
hex-Lacks k (b ∷ bs) (byte, small) h = (
  hex_digit-ne (b / 16) k (omega arith) h,
  (hex_digit-ne (b % 16) k (omega arith) h, hex-Lacks k bs small h),
)
