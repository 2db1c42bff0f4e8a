-- ===== src/Examples/Numbers.antt =====
-- Whole numbers in the place of floats: a concrete instance of the float interface.
use webmcp_backend.Common.{
  ◌≡◌, ◌⊎◌, Bool, true, false, ◌==◌, string_eq, if◌then◌else◌, none, some, arith,
}
use webmcp_backend.Common.Int.{ℤ, pos, ◌+ℤ◌, ◌-ℤ◌, ◌*ℤ◌, ltb_ℤ, int_eq}
use webmcp_backend.Common.Float.{Float64}

abbrev pub same : ℤ → ℤ → Bool
same a b = a == b

pub less_trans : (a b c : ℤ) → ltb_ℤ a b ≡ true → ltb_ℤ b c ≡ true → ltb_ℤ a c ≡ true
less_trans a b c h k = ground arith

pub less_irrefl : (a : ℤ) → ltb_ℤ a a ≡ false
less_irrefl a = ground arith

pub same_sym : (a b : ℤ) → same a b ≡ true → same b a ≡ true
same_sym a b h = ground arith

pub same_trans : (a b c : ℤ) → same a b ≡ true → same b c ≡ true → same a c ≡ true
same_trans a b c h k = ground arith

pub same_less : (a b c : ℤ) → same a b ≡ true → ltb_ℤ b c ≡ true → ltb_ℤ a c ≡ true
same_less a b c h k = ground arith

pub less_same : (a b c : ℤ) → ltb_ℤ a b ≡ true → same b c ≡ true → ltb_ℤ a c ≡ true
less_same a b c h k = ground arith

pub comparable :
    (a b : ℤ)
    → false ≡ false
    → false ≡ false
    → (ltb_ℤ a b ≡ true) ⊎ (same a b ≡ true) ⊎ (ltb_ℤ b a ≡ true)
comparable a b _ _ = ground arith

-- A decimal keeps its digits, and a quotient its dividend.
abbrev pub whole_numbers : Float64
whole_numbers = record {
  F = ℤ;
  of_int = λ n. n;
  decimal = λ n k. pos n;
  add = ◌+ℤ◌;
  sub = ◌-ℤ◌;
  mul = ◌*ℤ◌;
  div = λ a b. a;
  eq = same;
  lt = ltb_ℤ;
  trunc = λ a. a;
  is_nan = λ a. false;
  is_inf = λ a. false;
  parse = λ s. if s == "5000000000" then some (pos 5000000000) else none;
  format4 = λ a. "0.0000";
  lt_trans = less_trans;
  lt_irrefl = less_irrefl;
  eq_sym = same_sym;
  eq_trans = same_trans;
  eq_lt = same_less;
  lt_eq = less_same;
  trichotomy = comparable;
}
