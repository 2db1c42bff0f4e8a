-- ===== src/Common/Text/Runes.antt =====
-- A Go string's length and prefix in runes.
use Prim.Native.Nat.{ℕ, zero, suc, ◌≤◌}
use Prim.Native.String.{String, [], ◌∷◌}
use native.Mathlib.Omega.{arith}
use webmcp_backend.Common.Text.{trim}

-- `len([]rune(s))`
unfoldable pub rune_count : String → ℕ
rune_count [] = 0
rune_count (c ∷ s) = suc (rune_count s)

-- `string([]rune(s)[:n])`, all of it where it is shorter
unfoldable pub take_runes : ℕ → String → String
take_runes zero s = []
take_runes (suc n) [] = []
take_runes (suc n) (c ∷ s) = c ∷ take_runes n s

-- `limitText`
unfoldable pub limit_text : String → ℕ → String
unfolding take_runes
limit_text value max = take_runes max (trim value)

rune_count-take_runes : (n : ℕ) (s : String) → rune_count (take_runes n s) ≤ n
unfolding rune_count take_runes
rune_count-take_runes zero s = omega arith
rune_count-take_runes (suc n) [] = omega arith
rune_count-take_runes (suc n) (c ∷ s) = omega (arith, rune_count-take_runes n s)

-- A text that is limited has at most as many runes as the limit.
pub rune_count-limit_text : (s : String) (n : ℕ) → rune_count (limit_text s n) ≤ n
unfolding limit_text
rune_count-limit_text s n = rune_count-take_runes n (trim s)
