-- ===== src/Auth/Jwt/Bearer/Verified.antt =====
-- internal/auth/jwt.go: what an accepted bearer token proves.
use mathlib.Core.Path.{subst}
use webmcp_backend.Common.{
  ℕ, ◌≡◌, ◌⊎◌, inl, inr, refl, sym, ap, ◌∙◌, String, true, false, not, ◌||◌, Option, some, List,
  ◌==◌, string_eq, eq_iff, Result, ok, err, Passes, arith, Result-cases, >>=-eq-ok, reject-then,
  ok-injective,
}
use webmcp_backend.Common.Float.{Float64}
use webmcp_backend.Common.Text.{is_empty}
use webmcp_backend.Auth.Principal.{Principal, validate_principal}
use webmcp_backend.Auth.Principal.Capabilities.{IsPrincipal, validate_principal-Passes}
use webmcp_backend.Auth.Jwt.Tokens.{
  JwtCodec, JwtClaims, ParsedJwt, invalid_token, parse_jwt, validate_claims, contains, now_seconds,
  exceeds,
}
use webmcp_backend.Auth.Jwt.Keys.{PublicKey, KeyCache, cached_key, public_key}
use webmcp_backend.Auth.Jwt.Keys.Sound.{AreSound, public_key-AreSound, public_key-cached}
use webmcp_backend.Auth.Jwt.Bearer.{
  JwksAuthenticator, Surroundings, Crypto, bearer_token, principal_of, valid_or_invalid,
  check_signed, with_key, with_jwt, readable_jwt, authenticate_jwt,
}

-- The claims are the issuer's, for this audience, and current up to the clock's skew.
pub record AreValid (fl : Float64) (seconds : ℕ → fl.F) (a : JwksAuthenticator) (now : ℕ)
    (claims : JwtClaims fl.F) : Type 0 where
  pub issuer : claims.issuer ≡ a.issuer
  pub audience : contains claims.audience a.audience ≡ true
  pub expires : fl.lt claims.expires_at (fl.sub (now_seconds fl now) (seconds a.clock_skew)) ≡ false
  pub begun :
      exceeds fl claims.not_before (fl.add (now_seconds fl now) (seconds a.clock_skew)) ≡ false
  pub issued :
      exceeds fl claims.issued_at (fl.add (now_seconds fl now) (seconds a.clock_skew)) ≡ false

module _ (fl : Float64) {J : Type 0} (codec : JwtCodec J) (crypto : Crypto fl.F)
    (a : JwksAuthenticator) where
  -- The header carries one token; its header names RS256 and a key that is in the cache and not
  -- too old when it is looked for, this verifies the signature, and the claims are valid and are
  -- the principal's.
  pub record Verified (around : Surroundings) (request : Option (List String)) (cache : KeyCache)
      (p : Principal) : Type 0 where
    pub token : String
    pub jwt : ParsedJwt fl.F
    pub key : PublicKey
    pub carried : bearer_token request ≡ ok token
    pub parsed : parse_jwt fl codec token ≡ ok jwt
    pub algorithm : jwt.header.algorithm ≡ "RS256"
    pub known :
        (cached_key cache around.moments.looked jwt.header.key_id ≡ some key)
        ⊎ (cached_key cache around.moments.looked_again jwt.header.key_id ≡ some key)
    pub verified : crypto.verify key (crypto.digest jwt.signed) jwt.signature ≡ true
    pub valid : AreValid fl crypto.seconds a around.moments.tested jwt.claims
    pub claimed : p ≡ principal_of jwt.claims
    pub principal : IsPrincipal p

  validate_claims-AreValid :
      (claims : JwtClaims fl.F) (now : ℕ)
      → Passes (validate_claims fl crypto.seconds a.issuer a.audience a.clock_skew claims now)
      → AreValid fl crypto.seconds a now claims
  unfolding validate_claims
  validate_claims-AreValid claims now h = ground (arith, eq_iff claims.issuer a.issuer, h)

  valid_or_invalid-ok :
      (p q : Principal) → valid_or_invalid (validate_principal p) p ≡ ok q → (q ≡ p) × IsPrincipal q
  valid_or_invalid-ok p q h = elim (Result-cases (validate_principal p)) [
    | inl (tt, e) ↦
        let same : p ≡ q = ground (arith, e, h) in
        (sym same, subst IsPrincipal same ((validate_principal-Passes p).0 e))
    | inr (x, e) ↦ absurd (ground (arith, e, h))
  ]

  -- What the tests of a signed token prove.
  check_signed-ok :
      (tested : ℕ) (jwt : ParsedJwt fl.F) (key : PublicKey) (p : Principal)
      → check_signed fl codec crypto a tested jwt key ≡ ok p
      → (crypto.verify key (crypto.digest jwt.signed) jwt.signature ≡ true)
        × AreValid fl crypto.seconds a tested jwt.claims
        × (p ≡ principal_of jwt.claims)
        × IsPrincipal p
  unfolding check_signed
  check_signed-ok tested jwt key p h =
      let (verified, h1) =
        reject-then (not (crypto.verify key (crypto.digest jwt.signed) jwt.signature)) invalid_token
          _ p h in
      let (done, passed, h2) =
        >>=-eq-ok
          (validate_claims fl crypto.seconds a.issuer a.audience a.clock_skew jwt.claims tested) _
          h1 in
      let (same, valid) = valid_or_invalid-ok (principal_of jwt.claims) p h2 in
      (ground (arith, verified), validate_claims-AreValid jwt.claims tested passed, same, valid)

  readable_jwt-ok :
      (request : Option (List String)) (jwt : ParsedJwt fl.F)
      → readable_jwt fl codec crypto a request ≡ ok jwt
      → (token : String) × (bearer_token request ≡ ok token)
        × (parse_jwt fl codec token ≡ ok jwt)
        × (jwt.header.algorithm ≡ "RS256")
  unfolding readable_jwt
  readable_jwt-ok request jwt h =
      let (token, carried, h1) = >>=-eq-ok (bearer_token request) _ h in
      let (jwt', parsed, h2) = >>=-eq-ok (parse_jwt fl codec token) _ h1 in
      let (tested, h3) =
        reject-then (not (jwt'.header.algorithm == "RS256") || is_empty jwt'.header.key_id)
          invalid_token _ jwt h2 in
      let same = ok-injective h3 in
      (
        token,
        carried,
        parsed ∙ ap ok same,
        sym (ap (λ (x : ParsedJwt fl.F). x.header.algorithm) same)
            ∙ ground (arith, eq_iff jwt'.header.algorithm "RS256", tested),
      )

  with_key-ok :
      (tested : ℕ) (jwt : ParsedJwt fl.F) (r : Result PublicKey × KeyCache) (p : Principal)
      (cache' : KeyCache)
      → with_key fl codec crypto a tested jwt r ≡ (ok p, cache')
      → (key : PublicKey) × (r ≡ (ok key, cache'))
        × (check_signed fl codec crypto a tested jwt key ≡ ok p)
  with_key-ok tested jwt (err e, cache) p cache' h = absurd (ground (arith, h))
  with_key-ok tested jwt (ok key, cache) p cache' h =
      (key, ap (λ c. (ok key, c)) (ap (λ r. r.1) h), ap (λ r. r.0) h)

  with_key-AreSound :
      (tested : ℕ) (jwt : ParsedJwt fl.F) (r : Result PublicKey × KeyCache)
      → AreSound r.1.keys
      → AreSound (with_key fl codec crypto a tested jwt r).1.keys
  with_key-AreSound tested jwt (err e, cache) h = h
  with_key-AreSound tested jwt (ok key, cache) h = h

  with_jwt-Verified :
      (around : Surroundings) (request : Option (List String)) (cache cache' : KeyCache)
      (p : Principal) (r : Result (ParsedJwt fl.F))
      → readable_jwt fl codec crypto a request ≡ r
      → with_jwt fl codec crypto a around cache r ≡ (ok p, cache')
      → Verified around request cache' p
  with_jwt-Verified around request cache cache' p (err e) read h = absurd (ground (arith, h))
  with_jwt-Verified around request cache cache' p (ok jwt) read h =
      let (token, carried, parsed, algorithm) = readable_jwt-ok request jwt read in
      let (key, found, checked) = with_key-ok around.moments.tested jwt _ p cache' h in
      let (verified, valid, claimed, principal) =
        check_signed-ok around.moments.tested jwt key p checked in
      record {
        token = token;
        jwt = jwt;
        key = key;
        carried = carried;
        parsed = parsed;
        algorithm = algorithm;
        known = public_key-cached codec.decode crypto.document _ _ _ _ _ _ found;
        verified = verified;
        valid = valid;
        claimed = claimed;
        principal = principal;
      }

  -- A bearer token that is accepted is an RS256 token of the issuer, for the audience and current,
  -- whose signature a key verifies that is stored under the token's key id in a cache that is not
  -- too old when the key is looked for; and the principal is valid, the one that the claims name,
  -- and no guest.
  pub authenticate_jwt-Verified :
      (around : Surroundings) (request : Option (List String)) (cache cache' : KeyCache)
      (p : Principal)
      → authenticate_jwt fl codec crypto a around request cache ≡ (ok p, cache')
      → Verified around request cache' p × (p.guest ≡ false)
  unfolding authenticate_jwt principal_of
  authenticate_jwt-Verified around request cache cache' p h =
      let v = with_jwt-Verified around request cache cache' p _ refl h in
      (v, ap (λ (x : Principal). x.guest) v.claimed)

  with_jwt-AreSound :
      (around : Surroundings) (cache : KeyCache) (r : Result (ParsedJwt fl.F))
      → AreSound cache.keys
      → AreSound (with_jwt fl codec crypto a around cache r).1.keys
  with_jwt-AreSound around cache (err e) h = h
  with_jwt-AreSound around cache (ok jwt) h =
      let m = around.moments in
      with_key-AreSound m.tested jwt
        (public_key codec.decode crypto.document m.looked m.refreshed m.looked_again around.fetched
          jwt.header.key_id cache)
        (public_key-AreSound codec.decode crypto.document m.looked m.refreshed m.looked_again
          around.fetched jwt.header.key_id cache h)

  -- Whatever a request carries and whatever the endpoint of the keys answers, a cache all of whose
  -- keys have an odd exponent of at least three is left so.
  pub authenticate_jwt-AreSound :
      (around : Surroundings) (request : Option (List String)) (cache : KeyCache)
      → AreSound cache.keys
      → AreSound (authenticate_jwt fl codec crypto a around request cache).1.keys
  unfolding authenticate_jwt
  authenticate_jwt-AreSound around request cache h =
      with_jwt-AreSound around cache (readable_jwt fl codec crypto a request) h
