-- ===== src/Http/Access/Members.antt =====
-- cmd/server/main.go and internal/httpapi: whom a protected handler of a production deployment
-- serves.
use webmcp_backend.Common.{
  ◌≡◌, inl, inr, refl, sym, ap, ◌∙◌, Bool, true, false, Option, none, some, List, [], ◌∷◌, All,
  arith, Checked, Result, ok, err, is_error, Bool-cases,
}
use mathlib.Core.Path.{subst}
use mathlib.Core.Option.{some-injective}
use webmcp_backend.Common.Float.{Float64}
use webmcp_backend.Common.Io.{Io}
use webmcp_backend.Auth.Principal.{Principal}
use webmcp_backend.Auth.Principal.Capabilities.{IsPrincipal}
use webmcp_backend.Auth.Guest.{GuestAuthenticator, TokenCodec, guest_principal}
use webmcp_backend.Auth.Guest.Accepted.{Accepted, authenticate_guest-Accepted}
use webmcp_backend.Auth.Chain.{chain_authenticators, IsTrusted, authenticate_chained-Proves}
use webmcp_backend.Auth.Jwt.Tokens.{JwtCodec}
use webmcp_backend.Auth.Jwt.Keys.{KeyCache}
use webmcp_backend.Auth.Jwt.Bearer.{JwksAuthenticator, Crypto}
use webmcp_backend.Auth.Jwt.Bearer.Verified.{Verified, authenticate_jwt-Verified}
use webmcp_backend.Store.Tx.{Session}
use webmcp_backend.Store.Members.{authorize_principal, is_unavailable}
use webmcp_backend.Store.Members.Laws.{IsMember, authorize_principal-IsMember}
use webmcp_backend.Http.Authenticated.{
  Authentication, authenticates, authorizes, served, Agrees, authenticated-served,
}
use webmcp_backend.Http.Access.{
  Deployment, Visit, World, authentication_of, authorization_of, by_jwt, by_guest, mapped,
  authenticators, chain_of, membership, protected,
}

authentication_of-authenticates :
    (r : Result Principal) (p : Principal) → authentication_of r ≡ authenticates p → r ≡ ok p
authentication_of-authenticates (ok q) p h = ground (arith, h)
authentication_of-authenticates (err e) p h =
    elim (Bool-cases (is_error "authenticator is not configured" e)) [
      | inl unset ↦ absurd (ground (arith, unset, h))
      | inr set ↦ absurd (ground (arith, set, h))
    ]

authorization_of-authorizes : (r : Checked) → authorization_of r ≡ authorizes → r ≡ ok tt
authorization_of-authorizes (ok tt) h = refl
authorization_of-authorizes (err e) h = elim (Bool-cases (is_unavailable e)) [
  | inl down ↦ absurd (ground (arith, down, h))
  | inr up ↦ absurd (ground (arith, up, h))
]

module _ (fl : Float64) {J B : Type 0} (codec : JwtCodec J) (crypto : Crypto fl.F)
    (tokens : TokenCodec B) (d : Deployment) (v : Visit) where
  -- The evidence for a principal: a verified bearer token, or a guest token that the server signed.
  pub data Evidence (p : Principal) : Type 0 where
    bearer :
        (a : JwksAuthenticator) (cache : KeyCache)
        → d.jwks ≡ some a
        → Verified fl codec crypto a v.around v.request cache p
        → Evidence p
    guest :
        (g : GuestAuthenticator)
        → d.guest ≡ some g
        → p ≡ guest_principal g
        → Accepted tokens g v.now v.request
        → Evidence p

  abbrev Untouched : Session fl.F → World fl.F → Type 0
  Untouched s w = w.session ≡ s

  by_jwt-IsTrusted :
      (s : Session fl.F) (a : JwksAuthenticator)
      → d.jwks ≡ some a
      → IsTrusted (Untouched s) Evidence (by_jwt fl codec crypto tokens d v a)
  by_jwt-IsTrusted s a set w same =
      let cache' = (by_jwt fl codec crypto tokens d v a w).1.cache in
      (
        same,
        λ p e.
            bearer a cache' set
              (authenticate_jwt-Verified fl codec crypto a v.around v.request w.cache cache' p
                (ap (λ r. (r, cache')) e)).0,
      )

  by_guest-IsTrusted :
      (s : Session fl.F) (g : GuestAuthenticator)
      → d.guest ≡ some g
      → IsTrusted (Untouched s) Evidence (by_guest fl codec crypto tokens d v g)
  by_guest-IsTrusted s g set w same = (
    same,
    λ p e.
        let (named, accepted) = authenticate_guest-Accepted tokens g v.now v.request p e in
        guest g set named accepted,
  )

  chain_authenticators-IsTrusted :
      (s : Session fl.F) (jwks : Option JwksAuthenticator) (by : Option GuestAuthenticator)
      → d.jwks ≡ jwks
      → d.guest ≡ by
      → All (IsTrusted (Untouched s) Evidence) (
          chain_authenticators (
            mapped fl codec crypto tokens d v (by_jwt fl codec crypto tokens d v) jwks
            ∷ mapped fl codec crypto tokens d v (by_guest fl codec crypto tokens d v) by
            ∷ []))
  unfolding chain_authenticators
  chain_authenticators-IsTrusted s none none set set' = tt
  chain_authenticators-IsTrusted s none (some g) set set' = (by_guest-IsTrusted s g set', tt)
  chain_authenticators-IsTrusted s (some a) none set set' = (by_jwt-IsTrusted s a set, tt)
  chain_authenticators-IsTrusted s (some a) (some g) set set' =
      (by_jwt-IsTrusted s a set, (by_guest-IsTrusted s g set', tt))

  chain_of-Evidence :
      (chain : List (Io (World fl.F) Principal)) (w : World fl.F) (p : Principal)
      (f : World fl.F → Authentication × World fl.F)
      → All (IsTrusted (Untouched w.session) Evidence) chain
      → chain_of fl codec crypto tokens d v chain ≡ some f
      → (f w).0 ≡ authenticates p
      → Evidence p × ((f w).1.session ≡ w.session)
  chain_of-Evidence [] w p f trusted set h = absurd (ground (arith, set))
  chain_of-Evidence (a ∷ rest) w p f trusted set h =
      let same = some-injective _ _ set in
      let (kept, proof) =
        authenticate_chained-Proves (Untouched w.session) Evidence (a ∷ rest) trusted p w refl in
      (
        proof (authentication_of-authenticates _ p (ap (λ g. (g w).0) same ∙ h)),
        sym (ap (λ g. (g w).1.session) same) ∙ kept,
      )

  membership-IsMember :
      (database : Bool) (p : Principal) (w : World fl.F)
      → Agrees (membership fl codec crypto tokens d v database) true p w
      → (database ≡ true) × IsMember p w.session.db
  membership-IsMember false p w h = absurd (ground (arith, h))
  membership-IsMember true p w h =
      let r = authorize_principal true p w.session in
      let passed = authorization_of-authorizes r.0 h in
      (refl, (authorize_principal-IsMember p true w.session r.1 (ap (λ c. (c, r.1)) passed)).2)

  -- In production and staging, a protected handler serves a request only as a valid principal, on
  -- the evidence of a verified bearer token or of a guest token that the server has signed, and
  -- only if the database has a user of that organization with that role.
  pub protected-served :
      (w : World fl.F) (p : Principal)
      → (protected fl codec crypto tokens d v w).0 ≡ served p
      → IsPrincipal p × Evidence p × (d.database ≡ true) × IsMember p w.session.db
  unfolding protected authenticators
  protected-served w p h =
      let chain = authenticators fl codec crypto tokens d v in
      let (f, set, authentic, agrees, valid) =
        authenticated-served (chain_of fl codec crypto tokens d v chain)
          (membership fl codec crypto tokens d v d.database) true p w h in
      let (evidence, same) =
        chain_of-Evidence chain w p f
          (chain_authenticators-IsTrusted w.session d.jwks d.guest refl refl) set authentic in
      let (database, member) = membership-IsMember d.database p (f w).1 agrees in
      (valid, evidence, database, subst (λ s. IsMember p s.db) same member)
