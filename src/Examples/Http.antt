-- ===== src/Examples/Http.antt =====
-- The theorems on the HTTP middleware, at concrete requests.
use mathlib.Core.List.{Memᴰ}
use webmcp_backend.Common.{ℕ, suc, ◌≡◌, ◌↔◌, ◌⊎◌, refl, String, List, [], ◌∷◌, some, true}
use webmcp_backend.Common.Maps.{lookup}
use webmcp_backend.Common.Text.{
  trim, trim_left, trim_right, is_space, map_codes, codes_eq, lower_equals,
}
use webmcp_backend.Common.Text.Split.{split_on}
use webmcp_backend.Domain.Core.{validate_id, validate_ids}
use webmcp_backend.Auth.Principal.{Principal, validate_principal, validate_guest}
use webmcp_backend.Http.Replies.{proceeds}
use webmcp_backend.Http.Cors.{
  CorsRequest, no_content, cors_method_allowed, cors_header_allowed, refused_header, preflight,
  cors,
}
use webmcp_backend.Http.Cors.Preflight.{Preflight, cors-Preflight}
use webmcp_backend.Http.Authenticated.{
  Authentication, Authorization, authenticates, authorizes, served, authorize, authenticated,
}
use webmcp_backend.Examples.Data.{a_guest}

abbrev preflight_request : CorsRequest
preflight_request = record {
  method = "OPTIONS";
  origin = "https://a.example";
  requested_method = " POST";
  requested_headers = "Content-Type, X-Request-ID";
}

abbrev some_origins : List String
some_origins = "https://b.example" ∷ "https://a.example" ∷ []

it_is_answered : (cors some_origins preflight_request).1 ≡ proceeds no_content
unfolding cors preflight cors_method_allowed refused_header cors_header_allowed lower_equals
    map_codes codes_eq split_on trim trim_left trim_right is_space
it_is_answered = refl

cors-Preflight_example :
    (((lookup "Access-Control-Allow-Origin" (cors some_origins preflight_request).0
          ≡ some "https://a.example")
        × Memᴰ "https://a.example" some_origins)
      ⊎ (((cors some_origins preflight_request).0 ≡ [])
          × (Memᴰ "https://a.example" some_origins → ⊥)))
    × (((cors some_origins preflight_request).1 ≡ proceeds no_content)
        ↔ Preflight some_origins preflight_request)
cors-Preflight_example = cors-Preflight some_origins preflight_request

-- The world counts the calls.
abbrev guests : ℕ → Authentication × ℕ
guests n = (authenticates a_guest, suc n)

abbrev members : Principal → ℕ → Authorization × ℕ
members p n = (authorizes, suc n)

it_serves : (authenticated (some guests) (some members) true 0).0 ≡ served a_guest
unfolding authenticated authorize validate_principal validate_guest validate_ids validate_id trim
    trim_left trim_right is_space
it_serves = refl
