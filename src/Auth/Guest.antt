-- ===== src/Auth/Guest.antt =====
-- internal/auth/guest.go: the tokens of guest sessions. HMAC-SHA256, base64 and JSON are a
-- parameter; a time is a number of nanoseconds since 1970.
pub mod RoundTrip
pub mod Accepted
use Prim.Native.String.{len, ◌++◌ as append}
use webmcp_backend.Common.{
  ℕ, ◌<◌, ◌+◌, ◌*◌, ◌/◌, ◌≡◌, String, Bool, true, false, not, ◌||◌, Option, none, some, List, [],
  ◌∷◌, ltb, leb, ◌==◌, string_eq, if◌then◌else◌, Error, message, Result, ok, err, Checked, reject,
  ◌>>=◌, ◌>>◌,
}
use webmcp_backend.Common.Int.{ℤ, pos, ltb_ℤ, leb_ℤ, ◌+ℤ◌}
use webmcp_backend.Common.Text.{is_empty, trim, is_space}
use webmcp_backend.Common.Text.Split.{split_on, strip_prefix, has_none, is_code}
use webmcp_backend.Domain.Core.{Ident, validate_id}
use webmcp_backend.Auth.Principal.{Principal, viewer, validate_principal}

pub record GuestAuthenticator : Type 0 where
  pub secret : String
  pub user_id : Ident
  pub organization_id : Ident
  pub business_id : Ident
  pub goal_id : Ident
  pub ttl : ℕ

pub record GuestClaims : Type 0 where
  pub subject : String
  pub organization_id : String
  pub business_id : String
  pub goal_id : String
  pub issued_at : ℤ
  pub expires_at : ℤ

abbrev pub second : ℕ
second = 1000000000

abbrev pub minute : ℕ
minute = 60 * second

-- `time.Time.Unix`
abbrev pub unix : ℕ → ℤ
unix now = pos (now / second)

-- `hmac.New(sha256.New, secret)` of a payload, `base64.RawURLEncoding`, and `encoding/json`, over the
-- slices of bytes and their lengths.
pub record TokenCodec (B : Type 0) : Type 0 where
  pub size : B → ℕ
  pub digest : (secret payload : String) → B
  pub encode : B → String
  pub decode : String → Option B
  pub marshal : GuestClaims → Option B
  pub unmarshal : B → Option GuestClaims

-- What the round trip of a token relies on: what is encoded or marshalled is read back, the base64
-- alphabet has neither a dot nor white space, and neither a digest nor a JSON object is empty.
pub record IsTokenCodec {B : Type 0} (codec : TokenCodec B) : Type 0 where
  pub decode-encode : (bytes : B) → codec.decode (codec.encode bytes) ≡ some bytes
  pub unmarshal-marshal :
      (claims : GuestClaims) (json : B)
      → codec.marshal claims ≡ some json
      → codec.unmarshal json ≡ some claims
  pub encode_dots : (bytes : B) → has_none (is_code b'.') (codec.encode bytes) ≡ true
  pub encode_spaces : (bytes : B) → has_none is_space (codec.encode bytes) ≡ true
  pub encode_some : (bytes : B) → 0 < codec.size bytes → is_empty (codec.encode bytes) ≡ false
  pub digest_some : (secret payload : String) → 0 < codec.size (codec.digest secret payload)
  pub marshal_some :
      (claims : GuestClaims) (json : B) → codec.marshal claims ≡ some json → 0 < codec.size json

-- `NewGuestAuthenticator`
unfoldable pub new_guest_authenticator :
    String → Ident → Ident → Ident → Ident → ℕ → Result GuestAuthenticator
new_guest_authenticator secret user_id organization_id business_id goal_id ttl = do
  reject (ltb (len secret) 32 || ltb ttl minute || ltb (30 * minute) ttl)
      (message "guest secret or token TTL is invalid")
  validate_id user_id "user_id"
  validate_id organization_id "organization_id"
  validate_id business_id "business_id"
  validate_id goal_id "goal_id"
  ok (record {
    secret = secret;
    user_id = user_id;
    organization_id = organization_id;
    business_id = business_id;
    goal_id = goal_id;
    ttl = ttl;
  })

abbrev pub invalid_token : Error
invalid_token = message "guest token is invalid"

-- The three parts of a split token.
abbrev three :
    {A : Type 0} → List String → Result A → (String → String → String → Result A) → Result A
three (a ∷ b ∷ c ∷ []) other f = f a b c
three _ other f = other

-- `errors.New("guest token is invalid")` in place of a missing value
abbrev pub present : {A : Type 0} → Option A → Result A
present none = err invalid_token
present (some a) = ok a

-- The single value of the `Authorization` header, within its bound.
unfoldable pub single_value : Option (List String) → Result String
single_value (some (value ∷ [])) = if ltb 8192 (len value) then err invalid_token else ok value
single_value _ = err invalid_token

-- `if err := principal.Validate(); err != nil { return ..., errors.New(...) }`
abbrev pub valid_or_invalid : Checked → Principal → Result Principal
valid_or_invalid (ok _) p = ok p
valid_or_invalid (err e) p = err invalid_token

module _ (a : GuestAuthenticator) where
  unfoldable pub claims_at : ℕ → GuestClaims
  claims_at now = record {
    subject = a.user_id;
    organization_id = a.organization_id;
    business_id = a.business_id;
    goal_id = a.goal_id;
    issued_at = unix now;
    expires_at = unix (now + a.ttl);
  }

  unfoldable pub guest_principal : Principal
  guest_principal = record {
    user_id = a.user_id;
    organization_id = a.organization_id;
    role = viewer;
    guest = true;
    guest_business_id = a.business_id;
    guest_goal_id = a.goal_id;
  }

  -- The tests of the claims against the authenticator and the clock.
  unfoldable pub check_guest_claims : ℕ → GuestClaims → Checked
  unfolding ◌+ℤ◌
  check_guest_claims now claims = do
    reject
        (not (claims.subject == a.user_id)
          || not (claims.organization_id == a.organization_id)
          || not (claims.business_id == a.business_id)
          || not (claims.goal_id == a.goal_id))
        invalid_token
    reject
        (leb_ℤ claims.issued_at (pos 0)
          || leb_ℤ claims.expires_at claims.issued_at
          || ltb_ℤ claims.expires_at (unix now)
          || ltb_ℤ (unix now +ℤ pos 30) claims.issued_at)
        invalid_token

module _ {B : Type 0} (codec : TokenCodec B) (a : GuestAuthenticator) where
  -- `sign`
  unfoldable pub sign : String → String
  sign payload = codec.encode (codec.digest a.secret payload)

  unfoldable pub token_of : String → String
  token_of encoded = append "guest" (append "." (append encoded (append "." (sign encoded))))

  -- `IssueGuestToken`: the token, and the time at which it expires.
  unfoldable pub issue_guest_token : ℕ → Result (String × ℕ)
  unfolding claims_at token_of
  issue_guest_token now = elim (codec.marshal (claims_at a now)) [
    | none ↦ err (message "json.Marshal")
    | some json ↦ ok (token_of (codec.encode json), now + a.ttl)
  ]

  -- The signed payload of a token that is split at its dots.
  unfoldable pub signed_payload : List String → Result String
  signed_payload parts = three parts (err invalid_token) λ prefix payload signature.
      if not (prefix == "guest")
        || is_empty payload
        || is_empty signature
        || not (signature == sign payload)
      then err invalid_token
      else ok payload

  -- `Authenticate`, of the values of the `Authorization` header; `none` is a nil request.
  unfoldable pub authenticate_guest : ℕ → Option (List String) → Result Principal
  unfolding single_value signed_payload check_guest_claims guest_principal sign
  authenticate_guest now request = do
    value ← single_value request
    token ← present (strip_prefix "Bearer " value)
    payload ← signed_payload (split_on b'.' (trim token))
    json ← present (codec.decode payload)
    reject (ltb 2048 (codec.size json)) invalid_token
    claims ← present (codec.unmarshal json)
    check_guest_claims a now claims
    valid_or_invalid (validate_principal (guest_principal a)) (guest_principal a)
