-- ===== src/Common/Int.antt =====
-- Go's signed integers as ℤ over the native numbers; an `int64` sum keeps its wrap-around.
use webmcp_backend.Common.Tests.{ltb, leb, ◌==◌, Eq, nat_eq, if◌then◌else◌}
use Prim.Native.Nat.{ℕ, suc, ◌+◌, ◌-◌, ◌*◌, ◌%◌, ◌^◌, ◌≤◌, ◌<◌}
use mathlib.Core.Path.{◌≡◌}
use mathlib.Core.Logic.{◌↔◌}
use mathlib.Core.Bool.{Bool, true, ◌&&◌}
use native.Mathlib.Omega.{arith}

-- `negsuc n` is -(n + 1).
pub data ℤ : Type 0 where
  pos : ℕ → ℤ
  negsuc : ℕ → ℤ

abbrev pub pos_part : ℤ → ℕ
pos_part (pos n) = n
pos_part (negsuc n) = 0

abbrev neg_part : ℤ → ℕ
neg_part (pos n) = 0
neg_part (negsuc n) = suc n

-- a - b, as an integer.
abbrev sub_ℕ : ℕ → ℕ → ℤ
sub_ℕ a b = if leb b a then pos (a - b) else negsuc (b - a - 1)

infixl 65 ◌+ℤ◌ ◌-ℤ◌
infixl 70 ◌*ℤ◌
infix 50 ◌≤ℤ◌ ◌<ℤ◌
unfoldable pub ◌+ℤ◌ : ℤ → ℤ → ℤ
a +ℤ b = sub_ℕ (pos_part a + pos_part b) (neg_part a + neg_part b)

unfoldable pub ◌-ℤ◌ : ℤ → ℤ → ℤ
a -ℤ b = sub_ℕ (pos_part a + neg_part b) (neg_part a + pos_part b)

unfoldable pub ◌*ℤ◌ : ℤ → ℤ → ℤ
a *ℤ b =
    sub_ℕ (pos_part a * pos_part b + neg_part a * neg_part b)
      (pos_part a * neg_part b + neg_part a * pos_part b)

abbrev pub ◌≤ℤ◌ : ℤ → ℤ → Type 0
a ≤ℤ b = pos_part a + neg_part b ≤ pos_part b + neg_part a

abbrev pub ◌<ℤ◌ : ℤ → ℤ → Type 0
a <ℤ b = pos_part a + neg_part b < pos_part b + neg_part a

-- `a < b` and `a <= b`
abbrev pub ltb_ℤ : ℤ → ℤ → Bool
ltb_ℤ a b = ltb (pos_part a + neg_part b) (pos_part b + neg_part a)

abbrev pub leb_ℤ : ℤ → ℤ → Bool
leb_ℤ a b = leb (pos_part a + neg_part b) (pos_part b + neg_part a)

abbrev beq_ℤ : ℤ → ℤ → Bool
beq_ℤ a b = pos_part a == pos_part b && neg_part a == neg_part b

pub beq_ℤ_iff : (a b : ℤ) → (beq_ℤ a b ≡ true) ↔ (a ≡ b)
beq_ℤ_iff a b = (λ h. ground arith, λ h. ground arith)

instance abbrev pub int_eq : Eq ℤ
int_eq = record { beq = beq_ℤ; beq_iff = beq_ℤ_iff }

-- The number of the bit pattern of an `int64`, and the `int64` of a bit pattern.
abbrev pub to_bits : ℤ → ℕ
to_bits (pos n) = n % 2 ^ 64
to_bits (negsuc n) = 2 ^ 64 - 1 - n % 2 ^ 64

abbrev of_bits : ℕ → ℤ
of_bits n = if ltb n (2 ^ 63) then pos n else negsuc (2 ^ 64 - 1 - n)

-- `a + b` and `a - b` on `int64`
unfoldable pub add64 : ℤ → ℤ → ℤ
unfolding ◌+ℤ◌
add64 a b = of_bits (to_bits (a +ℤ b))

unfoldable pub sub64 : ℤ → ℤ → ℤ
unfolding ◌-ℤ◌
sub64 a b = of_bits (to_bits (a -ℤ b))

-- `a + b` on `uint64`
abbrev pub add_u64 : ℕ → ℕ → ℕ
add_u64 a b = (a + b) % 2 ^ 64
