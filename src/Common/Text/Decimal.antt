-- ===== src/Common/Text/Decimal.antt =====
-- `fmt.Sprint(n)` and the encoding of a `uint64` as a JSON number: its decimal digits.
use Prim.Native.Nat.{ℕ, zero, suc, ◌+◌, ◌*◌, ◌/◌, ◌%◌, ◌^◌, ◌<◌}
use Prim.Native.String.{String, ◌++◌ as append}
use mathlib.Core.Path.{◌≡◌}
use mathlib.Core.Logic.{inl, inr}
use mathlib.Core.Bool.{true, false}
use mathlib.Core.List.{List, [], ◌∷◌}
use native.Mathlib.Omega.{arith}
use webmcp_backend.Common.Tests.{ltb, ◌==◌, nat_eq, if◌then◌else◌, Bool-cases}

-- The digits of a number, the units first; twenty are enough for a `uint64`.
unfoldable pub digits : ℕ → ℕ → List ℕ
digits zero n = []
digits (suc fuel) n =
    let higher = digits fuel (n / 10) in n % 10 ∷ elim (ltb n 10) [ true ↦ [] | false ↦ higher ]

abbrev digit_text : ℕ → String
digit_text d =
    if d == 0
    then "0"
    else if d == 1
    then "1"
    else if d == 2
    then "2"
    else if d == 3
    then "3"
    else if d == 4
    then "4"
    else if d == 5
    then "5"
    else if d == 6
    then "6"
    else if d == 7
    then "7"
    else if d == 8
    then "8"
    else "9"

abbrev digits_text : List ℕ → String
digits_text [] = ""
digits_text (d ∷ ds) = append (digits_text ds) (digit_text d)

unfoldable pub decimal : ℕ → String
unfolding digits
decimal n = digits_text (digits 20 n)

abbrev digits_value : List ℕ → ℕ
digits_value [] = 0
digits_value (d ∷ ds) = d + 10 * digits_value ds

-- A number below 10 ^ fuel is the value of its digits.
digits-value : (fuel n : ℕ) → n < 10 ^ fuel → digits_value (digits fuel n) ≡ n
unfolding digits
digits-value zero n h = ground arith
digits-value (suc fuel) n h = elim (Bool-cases (ltb n 10)) [
  | inl small ↦ ground (arith, small)
  | inr large ↦ ground (arith, large, digits-value fuel (n / 10) (omega (arith, h)))
]
