-- ===== src/Common/Float.antt =====
-- The `float64` operations that the program uses, as an interface: the type, the operations of
-- Go's runtime, `math` and `strconv`, and the laws of IEEE 754 comparison that the proofs need.
use Prim.Native.Nat.{ℕ}
use Prim.Native.String.{String}
use mathlib.Core.Path.{◌≡◌}
use mathlib.Core.Logic.{◌⊎◌}
use mathlib.Core.Bool.{Bool, true, false}
use mathlib.Core.Option.{Option}
use webmcp_backend.Common.Int.{ℤ}

pub record Float64 : Type 1 where
  pub F : Type 0
  -- `float64(n)` of an `int64`, and the literal n / 10 ^ k
  pub of_int : ℤ → F
  pub decimal : ℕ → ℕ → F
  pub add : F → F → F
  pub sub : F → F → F
  pub mul : F → F → F
  pub div : F → F → F
  -- `a == b` and `a < b`
  pub eq : F → F → Bool
  pub lt : F → F → Bool
  pub trunc : F → F
  pub is_nan : F → Bool
  pub is_inf : F → Bool
  -- `strconv.ParseFloat(s, 64)`, `none` for an error
  pub parse : String → Option F
  -- `fmt.Sprintf("%.4f", a)`
  pub format4 : F → String
  pub lt_trans : (a b c : F) → lt a b ≡ true → lt b c ≡ true → lt a c ≡ true
  pub lt_irrefl : (a : F) → lt a a ≡ false
  pub eq_sym : (a b : F) → eq a b ≡ true → eq b a ≡ true
  pub eq_trans : (a b c : F) → eq a b ≡ true → eq b c ≡ true → eq a c ≡ true
  pub eq_lt : (a b c : F) → eq a b ≡ true → lt b c ≡ true → lt a c ≡ true
  pub lt_eq : (a b c : F) → lt a b ≡ true → eq b c ≡ true → lt a c ≡ true
  -- Two numbers that are not NaN are comparable.
  pub trichotomy :
      (a b : F)
      → is_nan a ≡ false
      → is_nan b ≡ false
      → (lt a b ≡ true) ⊎ (eq a b ≡ true) ⊎ (lt b a ≡ true)
