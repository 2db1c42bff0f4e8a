-- ===== src/Common/Io/Laws.antt =====
-- What code that returns has done before.
use webmcp_backend.Common.{◌≡◌, inl, inr, Result-cases, Bool, false, arith, Error, Result, ok}
use webmcp_backend.Common.Io.{Io, ◌>>=◌, lift, reject}

-- `m` returns `a` from `s` and leaves `s'`.
abbrev pub Returns : {W A : Type 0} → Io W A → W → A → W → Type 0
Returns m s a s' = m s ≡ (ok a, s')

module _ {W A B : Type 0} where
  pub bind-Returns :
      (m : Io W A) (f : A → Io W B) (s s' : W) (b : B)
      → Returns (m >>= f) s b s'
      → (a : A) × (s1 : W) × Returns m s a s1 × Returns (f a) s1 b s'
  unfolding ◌>>=◌
  bind-Returns m f s s' b h = elim (Result-cases (m s).0) [
    | inl (a, e) ↦ (a, (m s).1, ground (arith, e), ground (arith, e))
    | inr (x, e) ↦ absurd (ground (arith, e))
  ]

pub lift-Returns :
    {W A : Type 0} (r : Result A) (s s' : W) (a : A)
    → Returns (lift r) s a s'
    → (r ≡ ok a) × (s' ≡ s)
unfolding lift
lift-Returns r s s' a h = (ground arith, ground arith)

pub reject-Returns :
    {W : Type 0} (b : Bool) (e : Error) (s s' : W) (u : Unit {0})
    → Returns (reject b e) s u s'
    → (b ≡ false) × (s' ≡ s)
unfolding reject
reject-Returns b e s s' u h = (ground arith, ground arith)
