-- ===== src/Examples/Bearer.antt =====
-- The theorems on bearer tokens and on protected handlers, at one token, one key and one member.
use webmcp_backend.Common.{
  ℕ, zero, suc, ◌≡◌, refl, String, true, false, Option, none, some, List, [], ◌∷◌, ◌==◌, nat_eq,
  string_eq, if◌then◌else◌, length, arith, ok,
}
use webmcp_backend.Common.Int.{ℤ, pos, ◌+ℤ◌, ◌-ℤ◌}
use webmcp_backend.Common.Maps.{Map, lookup}
use webmcp_backend.Common.Text.{trim, trim_left, trim_right, is_space}
use webmcp_backend.Common.Text.Split.{has_none, strip_prefix, split_on}
use webmcp_backend.Domain.Core.{validate_id}
use webmcp_backend.Auth.Principal.{Principal, owner, validate_principal, validate_guest}
use webmcp_backend.Auth.Principal.Capabilities.{IsPrincipal}
use webmcp_backend.Auth.Chain.{chain_authenticators, authenticate_chained}
use webmcp_backend.Auth.Jwt.Tokens.{
  Bytes, JwtCodec, raw_string, raw_audience, number, raw_number, optional_number, decode_claims,
  parse_parts, parse_jwt, validate_claims,
}
use webmcp_backend.Auth.Jwt.Keys.{
  KeyCache, unreachable, cached_key, refresh, fetch_keys, public_key,
}
use webmcp_backend.Auth.Jwt.Keys.Sound.{AreSound}
use webmcp_backend.Auth.Jwt.Bearer.{
  JwksAuthenticator, Surroundings, Crypto, breaks, bearer_token, principal_of, check_signed,
  readable_jwt, authenticate_jwt,
}
use webmcp_backend.Auth.Jwt.Bearer.Verified.{
  Verified, authenticate_jwt-Verified, authenticate_jwt-AreSound,
}
use webmcp_backend.Store.Sql.{find_user}
use webmcp_backend.Store.Tx.{◌>>=◌, lift, statement, query, reject, open_and_run, with_tenant_tx}
use webmcp_backend.Store.Members.{member_tx, authorize_principal}
use webmcp_backend.Store.Members.Laws.{IsMember, authorize_principal-IsMember}
use webmcp_backend.Http.Authenticated.{served, authorize, authenticated}
use webmcp_backend.Http.Access.{Deployment, Visit, World, authenticators, protected}
use webmcp_backend.Http.Access.Members.{Evidence, protected-served}
use webmcp_backend.Examples.Numbers.{whole_numbers}
use webmcp_backend.Examples.Stores.{a_session, a_db}
use webmcp_backend.Examples.Tokens.{letter_codec, a_guest_authenticator}

abbrev zeros : ℕ → Bytes
zeros zero = []
zeros (suc n) = 0 ∷ zeros n

-- A raw message is its text.
abbrev header_object : Map String
header_object = ("alg", "RS256") ∷ ("kid", "key-1") ∷ []

abbrev claims_object : Map String
claims_object =
    ("iss", "https://issuer")
    ∷ ("sub", "ann")
    ∷ ("organization_id", "org")
    ∷ ("role", "owner")
    ∷ ("aud", "api")
    ∷ ("exp", "5000000000")
    ∷ []

abbrev a_codec : JwtCodec String
a_codec = record {
  decode =
      λ s. if s == "h" then some (1 ∷ []) else if s == "c" then some (2 ∷ []) else some (zeros 64);
  object = λ bytes.
      if length bytes == 1
      then (elim bytes [
        | b ∷ _ ↦ if b == 1 then some header_object else some claims_object
        | [] ↦ none
      ])
      else none;
  text = λ s. some s;
  texts = λ s. none;
  numeral = λ s. some s;
}

abbrev a_crypto : Crypto ℤ
a_crypto = record {
  digest = λ s. [];
  verify = λ key digest signature. length signature == 64;
  document = λ bytes. none;
  seconds = λ n. pos n;
}

abbrev an_authenticator : JwksAuthenticator
an_authenticator = record {
  issuer = "https://issuer";
  audience = "api";
  jwks_url = "https://issuer/keys";
  clock_skew = 60;
}

abbrev some_surroundings : Surroundings
some_surroundings = record {
  moments = record { looked = 5; refreshed = 6; looked_again = 7; tested = 8 };
  fetched = unreachable;
}

abbrev a_cache : KeyCache
a_cache = record {
  keys = ("key-1", record { modulus = 35; exponent = 3 }) ∷ [];
  refreshed_at = some 2;
}

abbrev a_request : Option (List String)
a_request = some ("Bearer h.c.s" ∷ [])

abbrev pub ann : Principal
ann = record {
  user_id = "ann";
  organization_id = "org";
  role = owner;
  guest = false;
  guest_business_id = "";
  guest_goal_id = "";
}

verifies :
    authenticate_jwt whole_numbers a_codec a_crypto an_authenticator some_surroundings a_request
      a_cache
    ≡ (ok ann, a_cache)
unfolding authenticate_jwt readable_jwt bearer_token breaks has_none strip_prefix split_on parse_jwt
    parse_parts decode_claims raw_string raw_audience raw_number optional_number number lookup
    check_signed validate_claims principal_of public_key cached_key refresh fetch_keys trim
    trim_left trim_right is_space validate_principal validate_guest validate_id ◌+ℤ◌ ◌-ℤ◌
verifies = refl

authenticate_jwt-Verified_example :
    Verified whole_numbers a_codec a_crypto an_authenticator some_surroundings a_request a_cache ann
    × (ann.guest ≡ false)
authenticate_jwt-Verified_example =
    authenticate_jwt-Verified whole_numbers a_codec a_crypto an_authenticator some_surroundings
      a_request a_cache a_cache ann verifies

authenticate_jwt-AreSound_example :
    AreSound
      (authenticate_jwt whole_numbers a_codec a_crypto an_authenticator some_surroundings a_request
        a_cache).1.keys
authenticate_jwt-AreSound_example =
    authenticate_jwt-AreSound whole_numbers a_codec a_crypto an_authenticator some_surroundings
      a_request a_cache (omega arith)

is_member : IsMember ann a_db
unfolding find_user
is_member = record {
  user = record { id = "ann"; organization_id = "org"; role = owner };
  found = refl;
  role = refl;
}

authorizes_ann : authorize_principal true ann a_session ≡ (ok tt, a_session)
unfolding authorize_principal member_tx find_user with_tenant_tx open_and_run ◌>>=◌ lift statement
    query reject trim trim_left trim_right is_space validate_principal validate_guest validate_id
authorizes_ann = refl

authorize_principal-IsMember_example :
    IsPrincipal ann × (true ≡ true) × IsMember ann a_db × (a_db ≡ a_db)
authorize_principal-IsMember_example =
    authorize_principal-IsMember ann true a_session a_session authorizes_ann

abbrev a_deployment : Deployment
a_deployment = record {
  jwks = some an_authenticator;
  guest = some a_guest_authenticator;
  database = true;
}

abbrev a_visit : Visit
a_visit = record { request = a_request; around = some_surroundings; now = 7000000000 }

abbrev a_world : World ℤ
a_world = record { cache = a_cache; session = a_session }

serves_ann :
    (protected whole_numbers a_codec a_crypto letter_codec a_deployment a_visit a_world).0
    ≡ served ann
unfolding protected authenticators chain_authenticators authenticate_chained authenticated authorize
    authenticate_jwt readable_jwt bearer_token breaks has_none strip_prefix split_on parse_jwt
    parse_parts decode_claims raw_string raw_audience raw_number optional_number number lookup
    check_signed validate_claims principal_of public_key cached_key refresh fetch_keys trim
    trim_left trim_right is_space validate_principal validate_guest validate_id ◌+ℤ◌ ◌-ℤ◌
    authorize_principal member_tx find_user with_tenant_tx open_and_run ◌>>=◌ lift statement query
    reject
serves_ann = refl

protected-served_example :
    IsPrincipal ann
    × Evidence whole_numbers a_codec a_crypto letter_codec a_deployment a_visit ann
    × (true ≡ true)
    × IsMember ann a_db
protected-served_example =
    protected-served whole_numbers a_codec a_crypto letter_codec a_deployment a_visit a_world ann
      serves_ann
