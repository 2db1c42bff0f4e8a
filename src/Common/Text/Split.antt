-- ===== src/Common/Text/Split.antt =====
-- `strings.Split` by one character, and `strings.TrimPrefix` after `strings.HasPrefix`.
use Prim.Native.Char.{Char, code}
use Prim.Native.String.{String, [], ◌∷◌, ◌++◌ as append}
use Prim.Native.String.append.{cons, nil}
use Prim.Native.Nat.{ℕ}
use mathlib.Core.Path.{◌≡◌, refl, ap, ◌∙◌}
use mathlib.Core.Bool.{Bool, true, ◌&&◌, not}
use mathlib.Core.Option.{Option, none, some}
use mathlib.Core.List.{List}
use native.Mathlib.Omega.{arith}
use webmcp_backend.Common.Tests.{◌==◌, nat_eq, if◌then◌else◌}
use webmcp_backend.Common.Text.{is_space, trim_left, trim_right, trim}

-- Puts a character before the first part.
abbrev prepend : Char → List String → List String
prepend c List.[] = List.◌∷◌ (c ∷ []) List.[]
prepend c (List.◌∷◌ part parts) = List.◌∷◌ (c ∷ part) parts

-- `strings.Split(s, string(separator))`
unfoldable pub split_on : ℕ → String → List String
split_on separator [] = List.◌∷◌ [] List.[]
split_on separator (c ∷ s) =
    let parts = split_on separator s in
    if code c == separator then List.◌∷◌ [] parts else prepend c parts

-- What follows a prefix, if the text has it.
unfoldable pub strip_prefix : String → String → Option String
strip_prefix [] s = some s
strip_prefix (p ∷ prefix) [] = none
strip_prefix (p ∷ prefix) (c ∷ s) = if code p == code c then strip_prefix prefix s else none

-- No character of a text passes a test.
unfoldable pub has_none : (ℕ → Bool) → String → Bool
has_none test [] = true
has_none test (c ∷ s) = not (test (code c)) && has_none test s

pub strip_prefix-append : (prefix s : String) → strip_prefix prefix (append prefix s) ≡ some s
unfolding strip_prefix
strip_prefix-append [] s = ap some (nil s)
strip_prefix-append (p ∷ prefix) s =
    ap (strip_prefix (p ∷ prefix)) (cons p prefix s) ∙ ground (arith, strip_prefix-append prefix s)

-- A code equals the separator.
abbrev pub is_code : ℕ → ℕ → Bool
is_code separator c = c == separator

pub split_on-single :
    (separator : ℕ) (s : String)
    → has_none (is_code separator) s ≡ true
    → split_on separator s ≡ List.◌∷◌ s List.[]
unfolding split_on has_none
split_on-single separator [] h = refl
split_on-single separator (c ∷ s) h = ground (arith, split_on-single separator s, h)

split_on-cons :
    (separator : Char) (part s : String)
    → has_none (is_code (code separator)) part ≡ true
    → split_on (code separator) (append part (separator ∷ s))
      ≡ List.◌∷◌ part (split_on (code separator) s)
unfolding split_on has_none
split_on-cons separator [] s h = ap (split_on (code separator)) (nil (separator ∷ s)) ∙ ground arith
split_on-cons separator (c ∷ part) s h =
    ap (split_on (code separator)) (cons c part (separator ∷ s))
    ∙ ground (arith, split_on-cons separator part s, h)

-- The part before the first separator is split off.
pub split_on-append :
    (separator : Char) (part s : String)
    → has_none (is_code (code separator)) part ≡ true
    → split_on (code separator) (append part (append (separator ∷ []) s))
      ≡ List.◌∷◌ part (split_on (code separator) s)
split_on-append separator part s h =
    ap (λ rest. split_on (code separator) (append part rest))
      (cons separator [] s ∙ ap (λ rest. separator ∷ rest) (nil s))
    ∙ split_on-cons separator part s h

trim_left-has_none : (s : String) → has_none is_space s ≡ true → trim_left s ≡ s
unfolding trim_left has_none
trim_left-has_none [] h = refl
trim_left-has_none (c ∷ s) h = ground (arith, h)

trim_right-has_none : (s : String) → has_none is_space s ≡ true → trim_right s ≡ s
unfolding trim_right has_none
trim_right-has_none [] h = refl
trim_right-has_none (c ∷ s) h = ground (arith, trim_right-has_none s, h)

-- A text without white space is left alone by trimming.
pub trim-has_none : (s : String) → has_none is_space s ≡ true → trim s ≡ s
unfolding trim
trim-has_none s h = ap trim_right (trim_left-has_none s h) ∙ trim_right-has_none s h

pub has_none-append :
    (test : ℕ → Bool) (s t : String)
    → has_none test s ≡ true
    → has_none test t ≡ true
    → has_none test (append s t) ≡ true
unfolding has_none
has_none-append test [] t h k = ap (has_none test) (nil t) ∙ k
has_none-append test (c ∷ s) t h k =
    ap (has_none test) (cons c s t) ∙ ground (arith, has_none-append test s t, h, k)
