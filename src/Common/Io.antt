-- ===== src/Common/Io.antt =====
-- Go code that acts on a state of the outside world and returns `(T, error)`: a function from the
-- world to a result and the world after it, with the early return of `if err != nil`.
pub mod Laws
use webmcp_backend.Common.{Bool, true, false, Error, Result, ok, err}

abbrev pub Io : Type 0 → Type 0 → Type 0
Io W A = W → Result A × W

module _ {W A B : Type 0} where
  abbrev continue : Result A → (A → Io W B) → Io W B
  continue (ok a) f s = f a s
  continue (err e) f s = (err e, s)

  infixl 5 ◌>>=◌ ◌>>◌
  unfoldable pub ◌>>=◌ : Io W A → (A → Io W B) → Io W B
  ◌>>=◌ m f s = let (r, s') = m s in continue r f s'

  abbrev pub ◌>>◌ : Io W A → Io W B → Io W B
  m >> n = m >>= λ _. n

-- A result that leaves the world alone.
unfoldable pub lift : {W A : Type 0} → Result A → Io W A
lift r s = (r, s)

-- `if test { return ..., err }`
unfoldable pub reject : {W : Type 0} → Bool → Error → Io W (Unit {0})
reject true e s = (err e, s)
reject false e s = (ok tt, s)
