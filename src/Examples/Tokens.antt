-- ===== src/Examples/Tokens.antt =====
-- The theorems on guest tokens, at a codec that writes a number as so many letters, and whose JSON
-- can hold the claims of one token.
use Prim.Native.String.{[], ◌∷◌, ◌++◌ as append}
use webmcp_backend.Common.{
  ℕ, zero, suc, ◌≤◌, ◌≡◌, refl, sym, ap, String, Bool, true, false, ◌&&◌, Option, none, some, List,
  ◌==◌, nat_eq, string_eq, eq_iff, if◌then◌else◌, arith, ok, Bool-cases, inl, inr,
}
use webmcp_backend.Common.Int.{pos, int_eq, beq_ℤ_iff}
use webmcp_backend.Common.Text.{is_empty, is_space, trim, trim_left, trim_right}
use webmcp_backend.Common.Text.Split.{has_none, is_code, strip_prefix, split_on}
use webmcp_backend.Domain.Core.{validate_id}
use webmcp_backend.Auth.Principal.{validate_principal, validate_guest}
use webmcp_backend.Auth.Guest.{
  GuestAuthenticator, GuestClaims, TokenCodec, IsTokenCodec, new_guest_authenticator, claims_at,
  guest_principal, check_guest_claims, single_value, sign, token_of, issue_guest_token,
  signed_payload, authenticate_guest,
}
use webmcp_backend.Auth.Guest.RoundTrip.{authenticate-issue_guest_token}
use webmcp_backend.Auth.Guest.Accepted.{Accepted, authenticate_guest-Accepted}

unfoldable pub letters : ℕ → String
letters zero = "a"
letters (suc n) = "a" ∷ letters n

unfoldable pub count : String → ℕ
count [] = 0
count (c ∷ s) = suc (count s)

abbrev less_one : ℕ → Option ℕ
less_one zero = none
less_one (suc n) = some n

abbrev read_letters : String → Option ℕ
read_letters s = less_one (count s)

abbrev pub a_guest_authenticator : GuestAuthenticator
a_guest_authenticator = record {
  secret = "0123456789abcdef0123456789abcdef";
  user_id = "guest-1";
  organization_id = "org";
  business_id = "shop";
  goal_id = "goal-1";
  ttl = 600000000000;
}

abbrev some_claims : GuestClaims
some_claims = record {
  subject = "guest-1";
  organization_id = "org";
  business_id = "shop";
  goal_id = "goal-1";
  issued_at = pos 5;
  expires_at = pos 605;
}

abbrev same_claims : GuestClaims → Bool
same_claims c =
    c.subject == "guest-1"
    && c.organization_id == "org"
    && c.business_id == "shop"
    && c.goal_id == "goal-1"
    && c.issued_at == pos 5
    && c.expires_at == pos 605

same_claims-eq : (c : GuestClaims) → same_claims c ≡ true → c ≡ some_claims
same_claims-eq c h = ground (
  arith,
  eq_iff c.subject "guest-1",
  eq_iff c.organization_id "org",
  eq_iff c.business_id "shop",
  eq_iff c.goal_id "goal-1",
  beq_ℤ_iff c.issued_at (pos 5),
  beq_ℤ_iff c.expires_at (pos 605),
  h,
)

abbrev pub letter_codec : TokenCodec ℕ
letter_codec = record {
  size = λ n. suc n;
  digest = λ secret payload. 7;
  encode = letters;
  decode = read_letters;
  marshal = λ c. if same_claims c then some 3 else none;
  unmarshal = λ n. some some_claims;
}

count-letters : (n : ℕ) → count (letters n) ≡ suc n
unfolding count letters
count-letters zero = refl
count-letters (suc n) = ap suc (count-letters n)

letters-has_none : (test : ℕ → Bool) (n : ℕ) → test b'a' ≡ false → has_none test (letters n) ≡ true
unfolding has_none letters
letters-has_none test zero h = ground (arith, h)
letters-has_none test (suc n) h = ground (arith, letters-has_none test n h, h)

letters_some : (n : ℕ) → is_empty (letters n) ≡ false
unfolding letters
letters_some zero = refl
letters_some (suc n) = refl

written : (c : GuestClaims) (json : ℕ) → letter_codec.marshal c ≡ some json → c ≡ some_claims
written c json h = elim (Bool-cases (same_claims c)) [
  | inl same ↦ same_claims-eq c same
  | inr other ↦ absurd (ground (arith, other, h))
]

no_space : is_space b'a' ≡ false
unfolding is_space
no_space = refl

letter_codec-IsTokenCodec : IsTokenCodec letter_codec
letter_codec-IsTokenCodec = record {
  decode-encode = λ n. ap less_one (count-letters n);
  unmarshal-marshal = λ c json h. ap some (sym (written c json h));
  encode_dots = λ n. letters-has_none (is_code b'.') n refl;
  encode_spaces = λ n. letters-has_none is_space n no_space;
  encode_some = λ n h. letters_some n;
  digest_some = λ secret payload. omega arith;
  marshal_some = λ c json h. omega arith;
}

abbrev a_token : String
a_token = "guest.aaaa.aaaaaaaa"

made :
    new_guest_authenticator "0123456789abcdef0123456789abcdef" "guest-1" "org" "shop" "goal-1"
      600000000000
    ≡ ok a_guest_authenticator
unfolding new_guest_authenticator validate_id trim trim_left trim_right is_space
made = refl

issued :
    issue_guest_token letter_codec a_guest_authenticator 5000000000 ≡ ok (a_token, 605000000000)
unfolding issue_guest_token claims_at token_of sign letters
issued = refl

small :
    (json : ℕ)
    → letter_codec.marshal (claims_at a_guest_authenticator 5000000000) ≡ some json
    → letter_codec.size json ≤ 2048
unfolding claims_at
small json h = ground (arith, h)

authenticate-issue_guest_token_example :
    authenticate_guest letter_codec a_guest_authenticator 7000000000
      (some (List.◌∷◌ (append "Bearer " a_token) List.[]))
    ≡ ok (guest_principal a_guest_authenticator)
authenticate-issue_guest_token_example =
    authenticate-issue_guest_token letter_codec a_guest_authenticator letter_codec-IsTokenCodec
      "0123456789abcdef0123456789abcdef" "guest-1" "org" "shop" "goal-1" 600000000000 5000000000
      7000000000 a_token 605000000000 made issued small (omega arith) (omega arith) (omega arith)
      (omega arith)

accepted :
    authenticate_guest letter_codec a_guest_authenticator 7000000000
      (some (List.◌∷◌ "Bearer guest.aaaa.aaaaaaaa" List.[]))
    ≡ ok (guest_principal a_guest_authenticator)
unfolding authenticate_guest guest_principal single_value signed_payload check_guest_claims sign
    letters count strip_prefix split_on trim trim_left trim_right is_space validate_principal
    validate_guest validate_id
accepted = refl

authenticate_guest-Accepted_example :
    (guest_principal a_guest_authenticator ≡ guest_principal a_guest_authenticator)
    × Accepted letter_codec a_guest_authenticator 7000000000
        (some (List.◌∷◌ "Bearer guest.aaaa.aaaaaaaa" List.[]))
authenticate_guest-Accepted_example =
    authenticate_guest-Accepted letter_codec a_guest_authenticator 7000000000
      (some (List.◌∷◌ "Bearer guest.aaaa.aaaaaaaa" List.[])) (guest_principal a_guest_authenticator)
      accepted
