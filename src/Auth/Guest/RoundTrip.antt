-- ===== src/Auth/Guest/RoundTrip.antt =====
-- internal/auth/guest.go: an issued token is taken, until it expires.
use Prim.Native.Char.{Char}
use Prim.Native.String.{len, ◌++◌ as append}
use mathlib.Core.Path.{subst}
use webmcp_backend.Common.{
  ℕ, ◌<◌, ◌+◌, ◌*◌, ◌≤◌, ◌≡◌, refl, ap, ◌∙◌, String, true, false, some, [], ◌∷◌, ltb, string_eq,
  eq_iff, ok, Passes, inl, inr, arith, Option-cases,
}
use webmcp_backend.Common.Int.{◌+ℤ◌}
use webmcp_backend.Common.Text.{is_space}
use webmcp_backend.Common.Text.Split.{
  split_on, has_none, strip_prefix-append, split_on-single, split_on-append, trim-has_none,
  has_none-append,
}
use webmcp_backend.Domain.Core.{Ident, IsIdent, validate_id-Passes}
use webmcp_backend.Auth.Principal.{validate_principal, validate_guest}
use webmcp_backend.Auth.Guest.{
  GuestAuthenticator, TokenCodec, IsTokenCodec, second, minute, new_guest_authenticator, claims_at,
  guest_principal, check_guest_claims, single_value, sign, token_of, issue_guest_token,
  signed_payload, authenticate_guest,
}

-- What `NewGuestAuthenticator` grants.
record IsGuestAuthenticator (a : GuestAuthenticator) : Type 0 where
  pub secret_long : 32 ≤ len a.secret
  pub ttl_least : minute ≤ a.ttl
  pub ttl_most : a.ttl ≤ 30 * minute
  pub user : IsIdent a.user_id
  pub organization : IsIdent a.organization_id
  pub business : IsIdent a.business_id
  pub goal : IsIdent a.goal_id

new_guest_authenticator-IsGuestAuthenticator :
    (secret : String) (user organization business goal : Ident) (ttl : ℕ) {a : GuestAuthenticator}
    → new_guest_authenticator secret user organization business goal ttl ≡ ok a
    → IsGuestAuthenticator a
unfolding new_guest_authenticator
new_guest_authenticator-IsGuestAuthenticator secret user organization business goal ttl h = ground (
  arith,
  (validate_id-Passes user "user_id").0,
  (validate_id-Passes organization "organization_id").0,
  (validate_id-Passes business "business_id").0,
  (validate_id-Passes goal "goal_id").0,
  h,
)

guest_principal-Passes :
    (a : GuestAuthenticator)
    → IsGuestAuthenticator a
    → Passes (validate_principal (guest_principal a))
unfolding validate_principal validate_guest guest_principal
guest_principal-Passes a valid = ground (
  arith,
  (validate_id-Passes a.user_id "user_id").1 valid.user,
  (validate_id-Passes a.organization_id "organization_id").1 valid.organization,
  (validate_id-Passes a.business_id "guest_business_id").1 valid.business,
  (validate_id-Passes a.goal_id "guest_goal_id").1 valid.goal,
)

-- The claims of a token pass from half a minute before it is issued until it expires.
check_guest_claims-Passes :
    (a : GuestAuthenticator) (issued now : ℕ)
    → IsGuestAuthenticator a
    → second ≤ issued
    → issued ≤ now + 30 * second
    → now ≤ issued + a.ttl
    → Passes (check_guest_claims a now (claims_at a issued))
unfolding check_guest_claims claims_at ◌+ℤ◌
check_guest_claims-Passes a issued now valid after early late = ground (
  arith,
  valid.ttl_least,
  eq_iff a.user_id a.user_id,
  eq_iff a.organization_id a.organization_id,
  eq_iff a.business_id a.business_id,
  eq_iff a.goal_id a.goal_id,
)

ltb-of-le : (bound n : ℕ) → n ≤ bound → ltb bound n ≡ false
ltb-of-le bound n h = ground arith

module _ {B : Type 0} (codec : TokenCodec B) (a : GuestAuthenticator)
    (laws : IsTokenCodec codec) where
  token_of-has_none : (json : B) → has_none is_space (token_of codec a (codec.encode json)) ≡ true
  unfolding token_of sign has_none is_space
  token_of-has_none json =
      let payload = codec.encode json in
      let signature = codec.encode (codec.digest a.secret payload) in
      let dotted : String = append "." signature in
      let signed : String = append payload dotted in
      let tail : String = append "." signed in
      let bare = laws.encode_spaces (codec.digest a.secret payload) in
      let e = has_none-append is_space "." signature refl bare in
      let f = has_none-append is_space payload dotted (laws.encode_spaces json) e in
      has_none-append is_space "guest" tail refl (has_none-append is_space "." signed refl f)

  token_of-split_on :
      (json : B)
      → split_on b'.' (token_of codec a (codec.encode json))
        ≡ "guest" ∷ codec.encode json ∷ sign codec a (codec.encode json) ∷ []
  unfolding token_of sign has_none
  token_of-split_on json =
      let payload = codec.encode json in
      let signature = codec.encode (codec.digest a.secret payload) in
      let dot : Char = "." in
      split_on-append dot "guest" (append payload (append "." signature)) refl
      ∙ ap (λ parts. "guest" ∷ parts)
          (split_on-append dot payload signature (laws.encode_dots json)
            ∙ ap (λ parts. payload ∷ parts)
                (split_on-single b'.' signature (laws.encode_dots (codec.digest a.secret payload))))

  signed_payload_of :
      (json : B)
      → 0 < codec.size json
      → signed_payload codec a ("guest" ∷ codec.encode json ∷ sign codec a (codec.encode json) ∷ [])
        ≡ ok (codec.encode json)
  unfolding signed_payload sign
  signed_payload_of json filled =
      let payload = codec.encode json in
      let digest = codec.digest a.secret payload in
      rw
        (
          laws.encode_some json filled,
          laws.encode_some digest (laws.digest_some a.secret payload),
          (eq_iff (codec.encode digest) (codec.encode digest)).1 refl,
        )
        refl

  -- A token with the claims of a time passes where these do.
  authenticate-token_of :
      (now issued : ℕ) (json : B)
      → IsGuestAuthenticator a
      → codec.marshal (claims_at a issued) ≡ some json
      → codec.size json ≤ 2048
      → len (append "Bearer " (token_of codec a (codec.encode json))) ≤ 8192
      → Passes (check_guest_claims a now (claims_at a issued))
      → authenticate_guest codec a now
          (some (append "Bearer " (token_of codec a (codec.encode json)) ∷ []))
        ≡ ok (guest_principal a)
  unfolding authenticate_guest single_value
  authenticate-token_of now issued json valid written small short pass =
      let token = token_of codec a (codec.encode json) in
      rw
        (
          ltb-of-le _ _ short,
          strip_prefix-append "Bearer " token,
          trim-has_none token (token_of-has_none json),
          token_of-split_on json,
          signed_payload_of json (laws.marshal_some _ json written),
          laws.decode-encode json,
          ltb-of-le _ _ small,
          laws.unmarshal-marshal _ json written,
          pass,
          guest_principal-Passes a valid,
        )
        refl

  -- A token that `IssueGuestToken` returns, in an `Authorization` header of at most 8192 bytes,
  -- authenticates its guest until it expires: exactly the principal of the authenticator. It does
  -- so already half a minute before it is issued, so a slow clock does no harm; its claims are at
  -- most 2048 bytes, and it is issued after the first second of 1970.
  pub authenticate-issue_guest_token :
      (secret : String) (user organization business goal : Ident) (ttl : ℕ) (issued now : ℕ)
      (token : String) (expires : ℕ)
      → new_guest_authenticator secret user organization business goal ttl ≡ ok a
      → issue_guest_token codec a issued ≡ ok (token, expires)
      → ((json : B) → codec.marshal (claims_at a issued) ≡ some json → codec.size json ≤ 2048)
      → len (append "Bearer " token) ≤ 8192
      → second ≤ issued
      → issued ≤ now + 30 * second
      → now ≤ expires
      → authenticate_guest codec a now (some (append "Bearer " token ∷ [])) ≡ ok (guest_principal a)
  unfolding issue_guest_token
  authenticate-issue_guest_token secret user organization business goal ttl issued now token expires
        made given small short after early late =
      let valid =
        new_guest_authenticator-IsGuestAuthenticator secret user organization business goal ttl
          made in
      elim (Option-cases (codec.marshal (claims_at a issued))) [
        | inl failed ↦ absurd (ground (arith, failed, given))
        | inr (json, written) ↦
            let same : token_of codec a (codec.encode json) ≡ token =
              ground (arith, written, given) in
            let until : issued + a.ttl ≡ expires = ground (arith, written, given) in
            subst
              (λ t.
                len (append "Bearer " t) ≤ 8192
                → authenticate_guest codec a now (some (append "Bearer " t ∷ []))
                  ≡ ok (guest_principal a))
              same
              (λ bound.
                authenticate-token_of now issued json valid written (small json written) bound
                  (check_guest_claims-Passes a issued now valid after early (omega (arith, until))))
              short
      ]
