-- ===== src/Common/Text.antt =====
-- What the program uses of Go's `strings`: trimming, case folding, containment, and lengths in
-- bytes (`len`) and in runes (`count`). A text is a list of code points, which is what a valid
-- UTF-8 string holds.
pub mod Trim
pub mod Order
pub mod Decimal
pub mod Runes
pub mod Split
use Prim.Native.Char.{Char, code}
use Prim.Native.String.{String, compare, [], ◌∷◌}
use Prim.Native.Nat.{ℕ, ◌+◌}
use mathlib.Core.Path.{◌≡◌}
use mathlib.Core.Bool.{Bool, true, false, ◌&&◌, ◌||◌}
use mathlib.Core.List.{List}
use text.Mathlib.Text.{is_lt}
use webmcp_backend.Common.Tests.{ltb, leb, ◌==◌, nat_eq, string_eq, if◌then◌else◌}

-- `unicode.IsSpace`
unfoldable pub is_space : ℕ → Bool
is_space c =
    (leb 9 c && leb c 13)
    || c == 32
    || c == 0x85
    || c == 0xa0
    || c == 0x1680
    || (leb 0x2000 c && leb c 0x200a)
    || c == 0x2028
    || c == 0x2029
    || c == 0x202f
    || c == 0x205f
    || c == 0x3000

abbrev pub is_empty : String → Bool
is_empty [] = true
is_empty (c ∷ s) = false

unfoldable pub trim_left : String → String
trim_left [] = []
trim_left (c ∷ s) = if is_space (code c) then trim_left s else c ∷ s

unfoldable pub trim_right : String → String
trim_right [] = []
trim_right (c ∷ s) =
    let rest = trim_right s in if is_space (code c) && is_empty rest then [] else c ∷ rest

-- `strings.TrimSpace`
unfoldable pub trim : String → String
unfolding trim_left trim_right is_space
trim s = trim_right (trim_left s)

-- `strings.TrimSpace(s) == ""`
abbrev pub is_blank : String → Bool
is_blank s = is_empty (trim s)

-- A text with something other than white space in it.
abbrev pub NotBlank : String → Type 0
NotBlank s = is_blank s ≡ false

abbrev codes : String → List ℕ
codes [] = List.[]
codes (c ∷ s) = List.◌∷◌ (code c) (codes s)

is_upper : ℕ → Bool
is_upper c = leb b'A' c && leb c b'Z'

-- `unicode.ToLower`, at every code point whose lower case is an ASCII letter.
lower_code : ℕ → ℕ
unfolding is_upper
lower_code c =
    if is_upper c then c + 32 else if c == 0x130 then b'i' else if c == 0x212a then b'k' else c

-- The least element of a simple-folding orbit that has an ASCII letter in it.
fold_code : ℕ → ℕ
unfolding is_upper
fold_code c =
    if is_upper c then c + 32 else if c == 0x212a then b'k' else if c == 0x17f then b's' else c

unfoldable pub map_codes : (ℕ → ℕ) → String → List ℕ
map_codes f [] = List.[]
map_codes f (c ∷ s) = List.◌∷◌ (f (code c)) (map_codes f s)

unfoldable pub codes_eq : List ℕ → List ℕ → Bool
codes_eq List.[] List.[] = true
codes_eq (List.◌∷◌ a s) (List.◌∷◌ b t) = a == b && codes_eq s t
codes_eq _ _ = false

codes_prefix : List ℕ → List ℕ → Bool
codes_prefix List.[] s = true
codes_prefix (List.◌∷◌ a t) (List.◌∷◌ b s) = a == b && codes_prefix t s
codes_prefix _ _ = false

codes_contain : List ℕ → List ℕ → Bool
unfolding codes_prefix
codes_contain List.[] t = codes_prefix t List.[]
codes_contain (List.◌∷◌ a s) t = codes_prefix t (List.◌∷◌ a s) || codes_contain s t

-- `strings.EqualFold(s, t)` for an ASCII text `t`
unfoldable pub equal_fold : String → String → Bool
unfolding map_codes codes_eq fold_code
equal_fold s t = codes_eq (map_codes fold_code s) (map_codes fold_code t)

-- `strings.ToLower(s) == t` for an ASCII text `t`
unfoldable pub lower_equals : String → String → Bool
unfolding map_codes codes_eq lower_code
lower_equals s t = codes_eq (map_codes lower_code s) (codes t)

-- `strings.Contains(strings.ToLower(s), t)` for an ASCII text `t`
unfoldable pub lower_contains : String → String → Bool
unfolding map_codes codes_contain lower_code
lower_contains s t = codes_contain (map_codes lower_code s) (codes t)

-- `s < t`, byte by byte
abbrev pub text_ltb : String → String → Bool
text_ltb s t = is_lt (compare s t)

-- `strings.Contains(s, t)`
unfoldable pub contains : String → String → Bool
unfolding codes_contain
contains s t = codes_contain (codes s) (codes t)
