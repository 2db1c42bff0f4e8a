-- ===== src/Http/Access.antt =====
-- cmd/server/main.go and internal/httpapi: the authenticators and the authorizer of a deployment, as
-- a protected handler meets them.
pub mod Members
use webmcp_backend.Common.{
  ℕ, String, Bool, true, false, Option, none, some, List, [], ◌∷◌, Option, map, if◌then◌else◌,
  Error, Checked, Result, ok, err, is_error,
}
use webmcp_backend.Common.Float.{Float64}
use webmcp_backend.Common.Io.{Io}
use webmcp_backend.Auth.Principal.{Principal}
use webmcp_backend.Auth.Guest.{GuestAuthenticator, TokenCodec, authenticate_guest}
use webmcp_backend.Auth.Chain.{chain_authenticators, authenticate_chained}
use webmcp_backend.Auth.Jwt.Tokens.{JwtCodec}
use webmcp_backend.Auth.Jwt.Keys.{KeyCache}
use webmcp_backend.Auth.Jwt.Bearer.{JwksAuthenticator, Surroundings, Crypto, authenticate_jwt}
use webmcp_backend.Store.Tx.{Session}
use webmcp_backend.Store.Members.{authorize_principal, is_unavailable}
use webmcp_backend.Http.Authenticated.{
  Authentication, authenticates, not_configured, not_authenticated, Authorization, authorizes,
  unavailable, denies, Outcome, authenticated,
}

-- The authenticators that are configured, and whether there is a database.
pub record Deployment : Type 0 where
  pub jwks : Option JwksAuthenticator
  pub guest : Option GuestAuthenticator
  pub database : Bool

-- A request with its `Authorization` values, and what surrounds it when it is authenticated.
pub record Visit : Type 0 where
  pub request : Option (List String)
  pub around : Surroundings
  pub now : ℕ

pub record World (F : Type 0) : Type 0 where
  pub cache : KeyCache
  pub session : Session F

-- What the middleware makes of the error of `Authenticate`.
abbrev pub authentication_of : Result Principal → Authentication
authentication_of (ok p) = authenticates p
authentication_of (err e) =
    if is_error "authenticator is not configured" e then not_configured else not_authenticated

-- What it makes of the error of `AuthorizePrincipal`.
abbrev pub authorization_of : Checked → Authorization
authorization_of (ok _) = authorizes
authorization_of (err e) = if is_unavailable e then unavailable else denies

module _ (fl : Float64) {J B : Type 0} (codec : JwtCodec J) (crypto : Crypto fl.F)
    (tokens : TokenCodec B) (d : Deployment) (v : Visit) where
  abbrev pub by_jwt : JwksAuthenticator → Io (World fl.F) Principal
  by_jwt a w =
      let (r, cache) = authenticate_jwt fl codec crypto a v.around v.request w.cache in
      (r, record w { cache = cache })

  abbrev pub by_guest : GuestAuthenticator → Io (World fl.F) Principal
  by_guest g w = (authenticate_guest tokens g v.now v.request, w)

  abbrev pub mapped : {A B : Type 0} → (A → B) → Option A → Option B
  mapped f none = none
  mapped f (some a) = some (f a)

  unfoldable pub authenticators : List (Io (World fl.F) Principal)
  unfolding chain_authenticators
  authenticators = chain_authenticators (mapped by_jwt d.jwks ∷ mapped by_guest d.guest ∷ [])

  abbrev pub chain_of :
      List (Io (World fl.F) Principal) → Option (World fl.F → Authentication × World fl.F)
  chain_of [] = none
  chain_of (a ∷ rest) =
      some λ w. let (r, w') = authenticate_chained (a ∷ rest) w in (authentication_of r, w')

  abbrev pub membership : Bool → Option (Principal → World fl.F → Authorization × World fl.F)
  membership false = none
  membership true = some λ p w.
      let (r, s) = authorize_principal true p w.session in
      (authorization_of r, record w { session = s })

  -- `protected`, in production or staging: an authorizer is required.
  unfoldable pub protected : World fl.F → Outcome × World fl.F
  unfolding authenticators authenticated
  protected w = authenticated (chain_of authenticators) (membership d.database) true w
