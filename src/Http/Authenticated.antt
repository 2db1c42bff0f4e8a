-- ===== src/Http/Authenticated.antt =====
-- internal/httpapi/auth_middleware.go: who is let through to a protected handler. The authenticator
-- and the authorizer are parameters that act on a world.
use webmcp_backend.Common.{
  ℕ, ◌≡◌, ◌⊎◌, inl, inr, ap, ◌∙◌, Result-cases, refl, String, Bool, true, false, Option, none, some,
  arith, ok, err, Checked,
}
use mathlib.Core.Path.{subst}
use webmcp_backend.Auth.Principal.{Principal, validate_principal}
use webmcp_backend.Auth.Principal.Capabilities.{IsPrincipal, validate_principal-Passes}

-- What `Authenticate` returns; an error is `ErrNotConfigured` or another one.
pub data Authentication : Type 0 where
  authenticates : Principal → Authentication
  not_configured not_authenticated : Authentication

-- What `AuthorizePrincipal` returns; an error is `ErrPrincipalAuthorizationUnavailable` or another
-- one.
pub data Authorization : Type 0 where
  authorizes unavailable denies : Authorization

-- The request goes on with a principal, or is answered: the status, the code, and whether there is
-- a `WWW-Authenticate` challenge.
pub data Outcome : Type 0 where
  served : Principal → Outcome
  answered : ℕ → String → Bool → Outcome

-- `auth.WithPrincipal` stores a valid principal.
abbrev pub stored : Principal → Checked → Outcome
stored p (ok _) = served p
stored p (err e) = answered 401 "invalid_principal" true

Authorization-cases : (a : Authorization) → (a ≡ authorizes) ⊎ (a ≡ unavailable) ⊎ (a ≡ denies)
Authorization-cases authorizes = inl refl
Authorization-cases unavailable = inr (inl refl)
Authorization-cases denies = inr (inr refl)

Authentication-cases :
    (a : Authentication)
    → ((p : Principal) × (a ≡ authenticates p)) ⊎ (a ≡ not_configured) ⊎ (a ≡ not_authenticated)
Authentication-cases (authenticates p) = inl (p, refl)
Authentication-cases not_configured = inr (inl refl)
Authentication-cases not_authenticated = inr (inr refl)

stored-valid :
    (p q : Principal) → stored p (validate_principal p) ≡ served q → (p ≡ q) × IsPrincipal p
stored-valid p q h = elim (Result-cases (validate_principal p)) [
  | inl (tt, e) ↦ (ground (arith, e, h), (validate_principal-Passes p).0 e)
  | inr (x, e) ↦ absurd (ground (arith, e, h))
]

module _ {W : Type 0} where
  unfoldable pub authorize :
      Option (Principal → W → Authorization × W) → Bool → Principal → W → Outcome × W
  authorize none true p w = (answered 503 "auth_not_ready" false, w)
  authorize none false p w = (stored p (validate_principal p), w)
  authorize (some authorizer) require p w =
      let (a, w') = authorizer p w in
      elim a [
        | authorizes ↦ (stored p (validate_principal p), w')
        | unavailable ↦ (answered 503 "auth_unavailable" false, w')
        | denies ↦ (answered 403 "principal_not_authorized" false, w')
      ]

  -- `authenticated`
  unfoldable pub authenticated :
      Option (W → Authentication × W)
      → Option (Principal → W → Authorization × W)
      → Bool
      → W
      → Outcome × W
  unfolding authorize
  authenticated none authorizer require w = (answered 503 "auth_not_configured" true, w)
  authenticated (some authenticator) authorizer require w =
      let (a, w') = authenticator w in
      elim a [
        | authenticates p ↦ authorize authorizer require p w'
        | not_configured ↦ (answered 503 "auth_not_configured" false, w')
        | not_authenticated ↦ (answered 401 "unauthenticated" true, w')
      ]

  -- The authorizer that there is agrees; there need be none, where it is not required.
  abbrev pub Agrees : Option (Principal → W → Authorization × W) → Bool → Principal → W → Type 0
  Agrees none require p w = require ≡ false
  Agrees (some authorizer) require p w = (authorizer p w).0 ≡ authorizes

  authorize-served :
      (authorizer : Option (Principal → W → Authorization × W)) (require : Bool) (p q : Principal)
      (w : W)
      → (authorize authorizer require p w).0 ≡ served q
      → (p ≡ q) × Agrees authorizer require p w × IsPrincipal p
  unfolding authorize
  authorize-served none true p q w h = absurd (ground (arith, h))
  authorize-served none false p q w h = let (e, valid) = stored-valid p q h in (e, refl, valid)
  authorize-served (some authorizer) require p q w h =
      elim (Authorization-cases (authorizer p w).0) [
        | inl agrees ↦
            let (e, valid) = stored-valid p q (ground (arith, agrees, h)) in (e, agrees, valid)
        | inr (inl other) ↦ absurd (ground (arith, other, h))
        | inr (inr other) ↦ absurd (ground (arith, other, h))
      ]

  -- A request is served only with a valid principal that the authenticator has returned, and that
  -- the authorizer has then agreed to; there may be no authorizer only where none is required.
  pub authenticated-served :
      (authenticator : Option (W → Authentication × W))
      (authorizer : Option (Principal → W → Authorization × W)) (require : Bool) (p : Principal)
      (w : W)
      → (authenticated authenticator authorizer require w).0 ≡ served p
      → (f : (W → Authentication × W)) × (authenticator ≡ some f)
        × ((f w).0 ≡ authenticates p)
        × Agrees authorizer require p (f w).1
        × IsPrincipal p
  unfolding authenticated
  authenticated-served none authorizer require p w h = absurd (ground (arith, h))
  authenticated-served (some f) authorizer require p w h = elim (Authentication-cases (f w).0) [
    | inl (q, e) ↦
        let (same, agrees, valid) =
          authorize-served authorizer require q p (f w).1 (ground (arith, e, h)) in
        (
          f,
          refl,
          e ∙ ap authenticates same,
          subst (λ x. Agrees authorizer require x (f w).1) same agrees,
          subst IsPrincipal same valid,
        )
    | inr (inl other) ↦ absurd (ground (arith, other, h))
    | inr (inr other) ↦ absurd (ground (arith, other, h))
  ]
