-- ===== src/Common/Text/Order.antt =====
-- Go's `<` on strings is a strict order.
use Prim.Native.String.{String, compare, [], ◌∷◌}
use Prim.Native.String.compare
use Prim.Native.Nat.{Ordering}
use mathlib.Core.Path.{◌≡◌}
use mathlib.Core.Bool.{true, false}
use native.Mathlib.Omega.{arith}
use text.Mathlib.TextPositions.{compare_refl}
use webmcp_backend.Common.Text.{text_ltb}

compare_trans :
    (s t u : String)
    → compare s t ≡ Ordering.lt
    → compare t u ≡ Ordering.lt
    → compare s u ≡ Ordering.lt
compare_trans [] [] u h k = ground (arith, compare.nil-nil)
compare_trans [] (d ∷ t) [] h k = ground (arith, compare.cons-nil d t)
compare_trans [] (d ∷ t) (e ∷ u) h k = compare.nil-cons e u
compare_trans (c ∷ s) [] u h k = ground (arith, compare.cons-nil c s)
compare_trans (c ∷ s) (d ∷ t) [] h k = ground (arith, compare.cons-nil d t)
compare_trans (c ∷ s) (d ∷ t) (e ∷ u) h k = ground (
  arith,
  compare.cons-cons c d s t,
  compare.cons-cons d e t u,
  compare.cons-cons c e s u,
  compare_trans s t u,
)

pub text_ltb_trans :
    (s t u : String) → text_ltb s t ≡ true → text_ltb t u ≡ true → text_ltb s u ≡ true
text_ltb_trans s t u h k = ground (arith, compare_trans s t u)

pub text_ltb_irrefl : (s : String) → text_ltb s s ≡ false
text_ltb_irrefl s = ground (arith, compare_refl s)
