-- ===== src/Auth/Jwt/Bearer.antt =====
-- internal/auth/jwt.go: the authenticator of bearer tokens. SHA-256, the RSA verification and the
-- parsing of URLs are parameters; a time is a number of nanoseconds since 1970.
pub mod Verified
use Prim.Native.String.{len}
use webmcp_backend.Common.{
  ℕ, ◌*◌, String, Bool, true, false, not, ◌&&◌, ◌||◌, Option, none, some, List, [], ◌∷◌, ltb, leb,
  ◌==◌, nat_eq, string_eq, if◌then◌else◌, message, Result, ok, err, Checked, reject, ◌>>=◌, ◌>>◌,
}
use webmcp_backend.Common.Io.{Io, ◌>>=◌ as then_io}
use webmcp_backend.Common.Int.{ℤ, pos, leb_ℤ, ltb_ℤ, pos_part}
use webmcp_backend.Common.Float.{Float64}
use webmcp_backend.Common.Text.{is_empty, is_blank, trim}
use webmcp_backend.Common.Text.Split.{strip_prefix, has_none}
use webmcp_backend.Auth.Principal.{
  Principal, Role, owner, operator, viewer, other, validate_principal,
}
use webmcp_backend.Auth.Jwt.Tokens.{
  Bytes, JwtCodec, JwtClaims, ParsedJwt, invalid_token, required, parse_jwt, validate_claims,
  second,
}
use webmcp_backend.Auth.Jwt.Keys.{PublicKey, KeyItem, KeyCache, Fetched, public_key}

-- What the code reads of a `url.URL`.
record ParsedUrl : Type 0 where
  pub scheme : String
  pub host : String
  pub has_user : Bool
  pub raw_query : String
  pub fragment : String

-- `JWKSAuthenticator`, without its cache of keys.
pub record JwksAuthenticator : Type 0 where
  pub issuer : String
  pub audience : String
  pub jwks_url : String
  pub clock_skew : ℕ

abbrev bad_issuer : Option ParsedUrl → Bool
bad_issuer none = true
bad_issuer (some u) =
    not (u.scheme == "https")
    || is_empty u.host
    || u.has_user
    || not (is_empty u.raw_query)
    || not (is_empty u.fragment)

abbrev bad_jwks_url : Option ParsedUrl → Bool
bad_jwks_url none = true
bad_jwks_url (some u) =
    (not (u.scheme == "https") && not (u.scheme == "http"))
    || is_empty u.host
    || u.has_user
    || not (is_empty u.fragment)

-- `NewJWKSAuthenticator`; the HTTP client is not modelled.
unfoldable new_jwks_authenticator :
    (String → Option ParsedUrl)
    → (issuer audience jwks_url : String) → ℤ
    → Result (JwksAuthenticator × KeyCache)
new_jwks_authenticator parse_url issuer audience jwks_url clock_skew = do
  reject (is_blank issuer || is_blank audience || is_blank jwks_url)
      (message "issuer, audience and JWKS URL are required")
  reject (bad_issuer (parse_url issuer)) (message "issuer must be an exact HTTPS URL")
  reject (bad_jwks_url (parse_url jwks_url)) (message "JWKS URL must be an absolute HTTP(S) URL")
  reject (leb_ℤ clock_skew (pos 0) || ltb_ℤ (pos (300 * second)) clock_skew)
      (message "clock skew must be between 1ns and 5m")
  ok (
    record {
      issuer = issuer;
      audience = audience;
      jwks_url = jwks_url;
      clock_skew = pos_part clock_skew;
    },
    record { keys = []; refreshed_at = none },
  )

-- A space, a tab, a carriage return or a line feed.
unfoldable pub breaks : ℕ → Bool
breaks c = c == 32 || c == 9 || c == 13 || c == 10

-- The token of the single `Authorization` header; `none` is a nil request.
unfoldable pub bearer_token : Option (List String) → Result String
unfolding breaks
bearer_token (some (value ∷ [])) = do
  rest ← required (strip_prefix "Bearer " value)
  reject (is_empty (trim rest) || ltb 16384 (len (trim rest)) || not (has_none breaks (trim rest)))
      invalid_token
  ok (trim rest)
bearer_token _ = err invalid_token

-- `Role(claims.Role)`
abbrev role_of : String → Role
role_of s =
    if s == "owner"
    then owner
    else if s == "operator"
    then operator
    else if s == "viewer"
    then viewer
    else other s

unfoldable pub principal_of : {F : Type 0} → JwtClaims F → Principal
principal_of claims = record {
  user_id = claims.subject;
  organization_id = claims.organization_id;
  role = role_of claims.role;
  guest = false;
  guest_business_id = "";
  guest_goal_id = "";
}

-- The times that a request reads: when it looks for a key, when fetched keys are set, when it looks
-- again, and when it tests the claims.
pub record Moments : Type 0 where
  pub looked : ℕ
  pub refreshed : ℕ
  pub looked_again : ℕ
  pub tested : ℕ

-- What the endpoint of the keys would answer, beside the times.
pub record Surroundings : Type 0 where
  pub moments : Moments
  pub fetched : Fetched

-- `crypto/sha256`, `rsa.VerifyPKCS1v15`, the document of the keys, and `time.Duration.Seconds`.
pub record Crypto (F : Type 0) : Type 0 where
  pub digest : String → Bytes
  pub verify : PublicKey → Bytes → Bytes → Bool
  pub document : Bytes → Option (List KeyItem)
  pub seconds : ℕ → F

abbrev pub valid_or_invalid : Checked → Principal → Result Principal
valid_or_invalid (ok _) p = ok p
valid_or_invalid (err e) p = err invalid_token

module _ (fl : Float64) {J : Type 0} (codec : JwtCodec J) (crypto : Crypto fl.F)
    (a : JwksAuthenticator) where
  -- The tests of `Authenticate` after it has a key.
  unfoldable pub check_signed : ℕ → ParsedJwt fl.F → PublicKey → Result Principal
  check_signed tested jwt key = do
    reject (not (crypto.verify key (crypto.digest jwt.signed) jwt.signature)) invalid_token
    validate_claims fl crypto.seconds a.issuer a.audience a.clock_skew jwt.claims tested
    valid_or_invalid (validate_principal (principal_of jwt.claims)) (principal_of jwt.claims)

  abbrev pub with_key :
      ℕ → ParsedJwt fl.F → Result PublicKey × KeyCache → Result Principal × KeyCache
  with_key tested jwt (err e, cache) = (err invalid_token, cache)
  with_key tested jwt (ok key, cache) = (check_signed tested jwt key, cache)

  -- The tests of `Authenticate` before it needs a key.
  unfoldable pub readable_jwt : Option (List String) → Result (ParsedJwt fl.F)
  unfolding bearer_token
  readable_jwt request = do
    token ← bearer_token request
    jwt ← parse_jwt fl codec token
    reject (not (jwt.header.algorithm == "RS256") || is_empty jwt.header.key_id) invalid_token
    ok jwt

  -- The rest of `Authenticate`, for a token that can be read.
  abbrev pub with_jwt :
      Surroundings → KeyCache → Result (ParsedJwt fl.F) → Result Principal × KeyCache
  with_jwt around cache (err e) = (err e, cache)
  with_jwt around cache (ok jwt) = with_key around.moments.tested jwt (
      public_key codec.decode crypto.document around.moments.looked around.moments.refreshed
        around.moments.looked_again around.fetched jwt.header.key_id cache)

  -- `Authenticate`, which may replace the cached keys.
  unfoldable pub authenticate_jwt :
      Surroundings → Option (List String) → KeyCache → Result Principal × KeyCache
  unfolding readable_jwt check_signed
  authenticate_jwt around request cache = with_jwt around cache (readable_jwt request)
