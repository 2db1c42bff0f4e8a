-- ===== src/Auth/Chain.antt =====
-- internal/auth/guest.go: authenticators that are tried one after the other, each in a world that it
-- may change.
use webmcp_backend.Common.{
  ◌≡◌, Option, none, some, List, [], ◌∷◌, All, arith, message, Result, ok, err,
}
use webmcp_backend.Common.Io.{Io}
use webmcp_backend.Auth.Principal.{Principal}

module _ {W : Type 0} where
  -- `ChainAuthenticators`: a nil authenticator is left out.
  unfoldable pub chain_authenticators : List (Option (Io W Principal)) → List (Io W Principal)
  chain_authenticators [] = []
  chain_authenticators (none ∷ rest) = chain_authenticators rest
  chain_authenticators (some a ∷ rest) = a ∷ chain_authenticators rest

  -- `return principal, nil`, or the rest of the loop.
  abbrev first_success : Result Principal × W → (W → Result Principal × W) → Result Principal × W
  first_success (ok p, w) rest = (ok p, w)
  first_success (err e, w) rest = rest w

  -- `chainedAuthenticator.Authenticate`
  unfoldable pub authenticate_chained : List (Io W Principal) → Io W Principal
  authenticate_chained [] w = (err (message "authentication failed"), w)
  authenticate_chained (a ∷ rest) w = first_success (a w) (authenticate_chained rest)

  module _ (Holds : W → Type 0) (Proves : Principal → Type 0) where
    -- An authenticator keeps what holds of the world, and proves something of who it accepts.
    abbrev pub IsTrusted : Io W Principal → Type 0
    IsTrusted a = (w : W) → Holds w → Holds (a w).1 × ((p : Principal) → (a w).0 ≡ ok p → Proves p)

    first_success-Proves :
        (r : Result Principal × W) (rest : W → Result Principal × W) (p : Principal)
        → Holds r.1
        → ((q : Principal) → r.0 ≡ ok q → Proves q)
        → ((w : W) → Holds w → Holds (rest w).1 × ((rest w).0 ≡ ok p → Proves p))
        → Holds (first_success r rest).1 × ((first_success r rest).0 ≡ ok p → Proves p)
    first_success-Proves (ok q, w) rest p h proof next = (h, proof p)
    first_success-Proves (err e, w) rest p h proof next = next w h

    -- Whoever a chain of trusted authenticators accepts, one of them accepts.
    pub authenticate_chained-Proves :
        (authenticators : List (Io W Principal))
        → All IsTrusted authenticators
        → (p : Principal) (w : W) → Holds w
        → Holds (authenticate_chained authenticators w).1
          × ((authenticate_chained authenticators w).0 ≡ ok p → Proves p)
    unfolding authenticate_chained
    authenticate_chained-Proves [] trusted p w h = (h, λ e. absurd (ground (arith, e)))
    authenticate_chained-Proves (a ∷ rest) (trust, trusted) p w h =
        first_success-Proves (a w) (authenticate_chained rest) p (trust w h).0 (trust w h).1
          (λ w' h'. authenticate_chained-Proves rest trusted p w' h')
