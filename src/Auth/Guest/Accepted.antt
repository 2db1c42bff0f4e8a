-- ===== src/Auth/Guest/Accepted.antt =====
-- internal/auth/guest.go: what an accepted guest token proves.
use webmcp_backend.Common.{
  ℕ, ◌≡◌, ◌≤◌, String, Option, none, some, List, [], ◌∷◌, ltb, string_eq, eq_iff, ok, err, Checked,
  Passes, arith, >>=-eq-ok, reject-then,
}
use webmcp_backend.Common.Int.{pos, ◌+ℤ◌, ◌≤ℤ◌, ◌<ℤ◌}
use webmcp_backend.Common.Text.{trim}
use webmcp_backend.Common.Text.Split.{split_on, strip_prefix}
use webmcp_backend.Auth.Principal.{Principal, validate_principal}
use webmcp_backend.Auth.Guest.{
  GuestAuthenticator, GuestClaims, TokenCodec, unix, invalid_token, guest_principal,
  check_guest_claims, single_value, present, valid_or_invalid, sign, signed_payload,
  authenticate_guest,
}

-- The claims name the guest, and the clock is between their times; the issuer's may be half a
-- minute ahead.
pub record AreCurrent (a : GuestAuthenticator) (now : ℕ) (claims : GuestClaims) : Type 0 where
  pub subject : claims.subject ≡ a.user_id
  pub organization : claims.organization_id ≡ a.organization_id
  pub business : claims.business_id ≡ a.business_id
  pub goal : claims.goal_id ≡ a.goal_id
  pub issued : pos 0 <ℤ claims.issued_at
  pub lives : claims.issued_at <ℤ claims.expires_at
  pub not_expired : unix now ≤ℤ claims.expires_at
  pub not_future : claims.issued_at ≤ℤ unix now +ℤ pos 30

-- The single value of the header is a bearer token of three parts, whose last is the signature of
-- the second, and this holds current claims.
pub record Accepted {B : Type 0} (codec : TokenCodec B) (a : GuestAuthenticator) (now : ℕ)
    (request : Option (List String)) : Type 0 where
  pub value : String
  pub token : String
  pub payload : String
  pub json : B
  pub claims : GuestClaims
  pub single : request ≡ some (value ∷ [])
  pub bearer : strip_prefix "Bearer " value ≡ some token
  pub signed : split_on b'.' (trim token) ≡ "guest" ∷ payload ∷ sign codec a payload ∷ []
  pub decoded : codec.decode payload ≡ some json
  pub small : codec.size json ≤ 2048
  pub parsed : codec.unmarshal json ≡ some claims
  pub current : AreCurrent a now claims

check_guest_claims-AreCurrent :
    (a : GuestAuthenticator) (now : ℕ) (claims : GuestClaims)
    → Passes (check_guest_claims a now claims)
    → AreCurrent a now claims
unfolding check_guest_claims ◌+ℤ◌
check_guest_claims-AreCurrent a now claims h = ground (
  arith,
  eq_iff claims.subject a.user_id,
  eq_iff claims.organization_id a.organization_id,
  eq_iff claims.business_id a.business_id,
  eq_iff claims.goal_id a.goal_id,
  h,
)

single_value-ok :
    (request : Option (List String)) {value : String}
    → single_value request ≡ ok value
    → request ≡ some (value ∷ [])
unfolding single_value
single_value-ok none h = absurd (ground (arith, h))
single_value-ok (some []) h = absurd (ground (arith, h))
single_value-ok (some (v ∷ [])) h = ground (arith, h)
single_value-ok (some (v ∷ w ∷ rest)) h = absurd (ground (arith, h))

present-ok : {A : Type 0} (o : Option A) {a : A} → present o ≡ ok a → o ≡ some a
present-ok none h = absurd (ground (arith, h))
present-ok (some a) h = ground (arith, h)

valid_or_invalid-ok : (c : Checked) (p q : Principal) → valid_or_invalid c p ≡ ok q → q ≡ p
valid_or_invalid-ok (ok tt) p q h = ground (arith, h)
valid_or_invalid-ok (err e) p q h = absurd (ground (arith, h))

module _ {B : Type 0} (codec : TokenCodec B) (a : GuestAuthenticator) where
  signed_payload-ok :
      (parts : List String) {payload : String}
      → signed_payload codec a parts ≡ ok payload
      → parts ≡ "guest" ∷ payload ∷ sign codec a payload ∷ []
  unfolding signed_payload
  signed_payload-ok [] h = absurd (ground (arith, h))
  signed_payload-ok (b ∷ []) h = absurd (ground (arith, h))
  signed_payload-ok (b ∷ c ∷ []) h = absurd (ground (arith, h))
  signed_payload-ok (b ∷ c ∷ d ∷ e ∷ rest) h = absurd (ground (arith, h))
  signed_payload-ok (b ∷ c ∷ d ∷ []) h =
      ground (arith, eq_iff b "guest", eq_iff d (sign codec a c), h)

  -- A request that authenticates a guest does so with the principal of the authenticator, and
  -- carries one bearer token, signed with the secret over claims that name the guest and are
  -- current.
  pub authenticate_guest-Accepted :
      (now : ℕ) (request : Option (List String)) (p : Principal)
      → authenticate_guest codec a now request ≡ ok p
      → (p ≡ guest_principal a) × Accepted codec a now request
  unfolding authenticate_guest
  authenticate_guest-Accepted now request p h =
      let (value, single, h1) = >>=-eq-ok (single_value request) _ h in
      let (token, bearer, h2) = >>=-eq-ok (present (strip_prefix "Bearer " value)) _ h1 in
      let (payload, signed, h3) =
        >>=-eq-ok (signed_payload codec a (split_on b'.' (trim token))) _ h2 in
      let (json, decoded, h4) = >>=-eq-ok (present (codec.decode payload)) _ h3 in
      let (small, h5) = reject-then (ltb 2048 (codec.size json)) invalid_token _ p h4 in
      let (claims, parsed, h6) = >>=-eq-ok (present (codec.unmarshal json)) _ h5 in
      let (done, passed, h7) = >>=-eq-ok (check_guest_claims a now claims) _ h6 in
      (
        valid_or_invalid-ok (validate_principal (guest_principal a)) (guest_principal a) p h7,
        record {
          value = value;
          token = token;
          payload = payload;
          json = json;
          claims = claims;
          single = single_value-ok request single;
          bearer = present-ok (strip_prefix "Bearer " value) bearer;
          signed = signed_payload-ok (split_on b'.' (trim token)) signed;
          decoded = present-ok (codec.decode payload) decoded;
          small = ground (arith, small);
          parsed = present-ok (codec.unmarshal json) parsed;
          current = check_guest_claims-AreCurrent a now claims passed;
        },
      )
