-- ===== src/Http/Cors.antt =====
-- internal/httpapi/middleware.go: which origins the server names to a browser, and the preflight
-- requests that it answers itself. A header has the value that `Header.Get` reads.
pub mod Preflight
use webmcp_backend.Common.{
  ◌≡◌, ◌↔◌, ◌⊎◌, inl, inr, refl, String, Bool, true, false, not, ◌&&◌, ◌||◌, List, [], ◌∷◌, any,
  All, ◌==◌, string_eq, eq_iff, arith, Bool-cases, if◌then◌else◌,
}
use webmcp_backend.Common.Text.{trim, is_empty, lower_equals}
use webmcp_backend.Common.Text.Split.{split_on}
use webmcp_backend.Http.Replies.{Served, refuses, proceeds, ◌>>=◌, ◌>>◌, refuse_if, reply}

pub record CorsRequest : Type 0 where
  pub method : String
  pub origin : String
  pub requested_method : String
  pub requested_headers : String

-- The request goes on to the routes, or is answered with 204.
pub data CorsStep : Type 0 where
  passes_on no_content : CorsStep

-- `corsMethodAllowed`
unfoldable pub cors_method_allowed : String → Bool
cors_method_allowed method = method == "GET" || method == "POST" || method == "OPTIONS"

-- `corsHeaderAllowed`
unfoldable pub cors_header_allowed : String → Bool
cors_header_allowed header =
    lower_equals header "content-type"
    || lower_equals header "authorization"
    || lower_equals header "idempotency-key"
    || lower_equals header "x-request-id"

-- One of the requested headers, with the space around it.
unfoldable pub refused_header : String → Bool
unfolding cors_header_allowed
refused_header header = not (is_empty (trim header)) && not (cors_header_allowed (trim header))

-- The headers of the response to an allowed origin.
unfoldable pub cors_headers : String → List (String × String)
cors_headers origin =
    ("Access-Control-Allow-Origin", origin)
    ∷ ("Vary", "Origin")
    ∷ ("Access-Control-Allow-Methods", "GET, POST, OPTIONS")
    ∷ ("Access-Control-Allow-Headers", "Content-Type, Authorization, Idempotency-Key, X-Request-ID")
    ∷ ("Access-Control-Max-Age", "600")
    ∷ []

abbrev pub is_listed : List String → String → Bool
is_listed allowed origin = any (λ o. o == origin) allowed

module _ (allowed : List String) (r : CorsRequest) where
  unfoldable pub preflight : Served CorsStep
  unfolding cors_method_allowed refused_header
  preflight = do
    refuse_if (is_empty r.origin)
        (reply 400 "missing_origin" "origin is required for preflight requests")
    refuse_if (not (is_listed allowed r.origin))
        (reply 403 "origin_not_allowed" "origin is not allowed")
    refuse_if
        (is_empty (trim r.requested_method) || not (cors_method_allowed (trim r.requested_method)))
        (reply 403 "method_not_allowed" "requested CORS method is not allowed")
    refuse_if (any refused_header (split_on b',' r.requested_headers))
        (reply 403 "header_not_allowed" "requested CORS header is not allowed")
    proceeds no_content

  -- `corsMiddleware`: the headers that it sets, and what becomes of the request.
  unfoldable pub cors : List (String × String) × Served CorsStep
  unfolding preflight cors_headers
  cors = (
    if is_listed allowed r.origin then cors_headers r.origin else [],
    if r.method == "OPTIONS" then preflight else proceeds passes_on,
  )
