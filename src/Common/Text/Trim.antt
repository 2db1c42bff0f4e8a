-- ===== src/Common/Text/Trim.antt =====
-- Trimming twice is trimming once, so a trimmed text is blank exactly if the original was.
use Prim.Native.Char.{code}
use Prim.Native.String.{String, [], ◌∷◌}
use mathlib.Core.Path.{◌≡◌, refl, ap, ◌∙◌}
use mathlib.Core.Logic.{inl, inr, ◌↔◌}
use mathlib.Core.Bool.{◌&&◌, true}
use webmcp_backend.Common.Tests.{Bool-cases}
use webmcp_backend.Common.Text.{is_space, is_empty, trim_left, trim_right, trim, is_blank}

trim_right_idem : (s : String) → trim_right (trim_right s) ≡ trim_right s
unfolding trim_right
trim_right_idem [] = refl
trim_right_idem (c ∷ s) = elim (Bool-cases (is_space (code c) && is_empty (trim_right s))) [
  | inl e ↦ rw e
  | inr e ↦ rw e (rw (trim_right_idem s) (rw e))
]

-- What is left of a text trimmed on the left does not begin with white space.
trim_left-trim_right-trim_left :
    (s : String) → trim_left (trim_right (trim_left s)) ≡ trim_right (trim_left s)
unfolding trim_left trim_right
trim_left-trim_right-trim_left [] = refl
trim_left-trim_right-trim_left (c ∷ s) = elim (Bool-cases (is_space (code c))) [
  | inl e ↦ rw e (trim_left-trim_right-trim_left s)
  | inr e ↦ rw e (rw e (rw e))
]

trim_idem : (s : String) → trim (trim s) ≡ trim s
unfolding trim
trim_idem s = ap trim_right (trim_left-trim_right-trim_left s) ∙ trim_right_idem (trim_left s)

is_blank-trim : (s : String) → is_blank (trim s) ≡ is_blank s
is_blank-trim s = ap is_empty (trim_idem s)

pub is_empty_iff : (s : String) → (is_empty s ≡ true) ↔ (s ≡ "")
is_empty_iff [] = (λ h. refl, λ h. refl)
is_empty_iff (c ∷ s) = (λ h. cc, λ h. cc)
