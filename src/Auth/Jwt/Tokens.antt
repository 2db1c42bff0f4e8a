-- ===== src/Auth/Jwt/Tokens.antt =====
-- internal/auth/jwt.go: a token is taken apart into its header, its claims and its signature, and
-- the claims are tested. base64, JSON and the length of a `time.Duration` in seconds are parameters.
use Prim.Native.String.{◌++◌ as append}
use webmcp_backend.Common.{
  ℕ, ◌*◌, String, Bool, false, not, ◌||◌, Option, none, some, List, [], ◌∷◌, length, any, ltb, ◌==◌,
  string_eq, if◌then◌else◌, Error, message, Result, ok, err, Checked, reject, ◌>>=◌, ◌>>◌,
}
use webmcp_backend.Common.Int.{pos}
use webmcp_backend.Common.Float.{Float64}
use webmcp_backend.Common.Maps.{Map, lookup}
use webmcp_backend.Common.Text.{is_empty, is_blank}
use webmcp_backend.Common.Text.Split.{split_on}

abbrev pub Bytes : Type 0
Bytes = List ℕ

-- `errInvalidToken`
abbrev pub invalid_token : Error
invalid_token = message "invalid bearer token"

-- `base64.RawURLEncoding.DecodeString`; `json.Unmarshal` into a `map[string]json.RawMessage`, and of
-- a raw message into a string, a `[]string` and a `json.Number`.
pub record JwtCodec (J : Type 0) : Type 0 where
  pub decode : String → Option Bytes
  pub object : Bytes → Option (Map J)
  pub text : J → Option String
  pub texts : J → Option (List String)
  pub numeral : J → Option String

pub record JwtHeader : Type 0 where
  pub algorithm : String
  pub key_id : String

pub record JwtClaims (F : Type 0) : Type 0 where
  pub issuer : String
  pub audience : List String
  pub subject : String
  pub organization_id : String
  pub role : String
  pub expires_at : F
  pub not_before : Option F
  pub issued_at : Option F

-- What `parseJWT` returns.
pub record ParsedJwt (F : Type 0) : Type 0 where
  pub header : JwtHeader
  pub claims : JwtClaims F
  pub signed : String
  pub signature : Bytes

-- `if !ok { return ..., errInvalidToken }`
abbrev pub required {ℓ} : {A : Type ℓ} → Option A → Result A
required none = err invalid_token
required (some a) = ok a

module _ (fl : Float64) {J : Type 0} (codec : JwtCodec J) where
  open fl use {F}

  -- `rawString`
  unfoldable pub raw_string : Map J → String → Option String
  raw_string values key = elim (lookup key values) [
    | none ↦ none
    | some value ↦ elim (codec.text value) [
      | none ↦ none
      | some s ↦ if is_blank s then none else some s
    ]
  ]

  -- The loop over a list of audiences.
  abbrev all_named : List String → Option (List String)
  all_named [] = none
  all_named (item ∷ items) = if any is_empty (item ∷ items) then none else some (item ∷ items)

  abbrev audiences : Option (List String) → Option (List String)
  audiences none = none
  audiences (some many) = all_named many

  abbrev one_or : Option String → Option (List String) → Option (List String)
  one_or none many = audiences many
  one_or (some one) many = if is_empty one then audiences many else some (one ∷ [])

  -- `rawAudience`, of `raw["aud"]`
  unfoldable pub raw_audience : Option J → Option (List String)
  raw_audience none = none
  raw_audience (some value) = one_or (codec.text value) (codec.texts value)

  abbrev finite : Option F → Option F
  finite none = none
  finite (some x) = if fl.is_nan x || fl.is_inf x then none else some x

  -- `number`
  unfoldable pub number : J → Option F
  number value = elim (codec.numeral value) [ none ↦ none | some digits ↦ finite (fl.parse digits) ]

  -- `rawNumber`
  unfoldable pub raw_number : Map J → String → Option F
  unfolding number
  raw_number values key = elim (lookup key values) [ none ↦ none | some value ↦ number value ]

  -- A number that may be missing and, if there, must be one.
  unfoldable pub optional_number : Map J → String → Result (Option F)
  unfolding number
  optional_number values key = elim (lookup key values) [
    | none ↦ ok none
    | some value ↦ elim (number value) [ none ↦ err invalid_token | some x ↦ ok (some x) ]
  ]

  -- `decodeClaims`
  unfoldable pub decode_claims : Bytes → Result (JwtClaims F)
  unfolding raw_string raw_audience raw_number optional_number
  decode_claims bytes = do
    raw ← required (codec.object bytes)
    issuer ← required (raw_string raw "iss")
    subject ← required (raw_string raw "sub")
    organization_id ← required (raw_string raw "organization_id")
    role ← required (raw_string raw "role")
    audience ← required (raw_audience (lookup "aud" raw))
    expires_at ← required (raw_number raw "exp")
    not_before ← optional_number raw "nbf"
    issued_at ← optional_number raw "iat"
    ok (record {
      issuer = issuer;
      audience = audience;
      subject = subject;
      organization_id = organization_id;
      role = role;
      expires_at = expires_at;
      not_before = not_before;
      issued_at = issued_at;
    })

  -- What `parseJWT` makes of three parts that are not empty.
  unfoldable pub parse_parts : (header claims signature : String) → Result (ParsedJwt F)
  unfolding decode_claims
  parse_parts header claims signature = do
    header_bytes ← required (codec.decode header)
    reject (ltb 4096 (length header_bytes)) invalid_token
    raw_header ← required (codec.object header_bytes)
    algorithm ← required (raw_string raw_header "alg")
    key_id ← required (raw_string raw_header "kid")
    claim_bytes ← required (codec.decode claims)
    reject (ltb (12 * 1024) (length claim_bytes)) invalid_token
    decoded ← decode_claims claim_bytes
    signature_bytes ← required (codec.decode signature)
    reject (ltb (length signature_bytes) 64 || ltb 1024 (length signature_bytes)) invalid_token
    ok (record {
      header = record { algorithm = algorithm; key_id = key_id };
      claims = decoded;
      signed = append header (append "." claims);
      signature = signature_bytes;
    })

  -- Exactly three parts, and none is empty.
  abbrev three_parts : List String → Result (ParsedJwt F)
  three_parts (a ∷ b ∷ c ∷ []) =
      if is_empty a || is_empty b || is_empty c then err invalid_token else parse_parts a b c
  three_parts _ = err invalid_token

  -- `parseJWT`
  unfoldable pub parse_jwt : String → Result (ParsedJwt F)
  unfolding parse_parts
  parse_jwt token = three_parts (split_on b'.' token)

abbrev pub second : ℕ
second = 1000000000

-- `contains`
abbrev pub contains : List String → String → Bool
contains values expected = any (λ v. v == expected) values

module _ (fl : Float64) where
  open fl use {F}

  -- `float64(now.UnixNano()) / float64(time.Second)`
  abbrev pub now_seconds : ℕ → F
  now_seconds now = fl.div (fl.of_int (pos now)) (fl.of_int (pos second))

  abbrev pub exceeds : Option F → F → Bool
  exceeds none bound = false
  exceeds (some x) bound = fl.lt bound x

  -- `validateClaims`
  unfoldable pub validate_claims :
      (seconds : ℕ → F) (issuer audience : String) (clock_skew : ℕ) → JwtClaims F → ℕ → Checked
  validate_claims seconds issuer audience clock_skew claims now = do
    reject (not (claims.issuer == issuer) || not (contains claims.audience audience)) invalid_token
    reject (fl.lt claims.expires_at (fl.sub (now_seconds now) (seconds clock_skew))) invalid_token
    reject (exceeds claims.not_before (fl.add (now_seconds now) (seconds clock_skew))) invalid_token
    reject (exceeds claims.issued_at (fl.add (now_seconds now) (seconds clock_skew))) invalid_token
