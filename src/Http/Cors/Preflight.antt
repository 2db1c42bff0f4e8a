-- ===== src/Http/Cors/Preflight.antt =====
-- internal/httpapi/middleware.go: which preflight requests are answered with success, and which
-- origins the headers of a response name.
use mathlib.Core.List.{Memᴰ}
use mathlib.Core.List.Memᴰ
use Prim.Native.String.{[] as empty_text, ◌∷◌ as char_then}
use webmcp_backend.Common.{
  ◌≡◌, ◌≢◌, ap, some, ◌↔◌, ◌⊎◌, inl, inr, refl, sym, String, Bool, true, false, not, ◌||◌, List, [],
  ◌∷◌, any, All, ◌==◌, string_eq, eq_iff, arith, Bool-cases, if◌then◌else◌, any-false, All-imp,
}
use webmcp_backend.Common.Maps.{lookup}
use webmcp_backend.Common.Text.{trim, is_empty, lower_equals}
use webmcp_backend.Common.Text.Split.{split_on}
use webmcp_backend.Http.Replies.{Reply, Served, proceeds, ◌>>◌, refuse_if}
use webmcp_backend.Http.Cors.{
  CorsRequest, CorsStep, passes_on, no_content, cors_method_allowed, cors_header_allowed,
  refused_header, cors_headers, is_listed, preflight, cors,
}

is_listed_iff :
    (allowed : List String) (origin : String)
    → (is_listed allowed origin ≡ true) ↔ Memᴰ origin allowed
is_listed_iff [] origin = (λ h. absurd (ground (arith, h)), λ m. absurd (Memᴰ.not-nil m))
is_listed_iff (o ∷ allowed) origin = (
  λ h. elim (Bool-cases (o == origin)) [
    | inl same ↦ Memᴰ.head (sym ((eq_iff o origin).0 same))
    | inr other ↦ Memᴰ.tail ((is_listed_iff allowed origin).0 (ground (arith, h, other)))
  ],
  λ m. elim (Memᴰ.cases_cons m) [
    | inl same ↦ ground (arith, (eq_iff o origin).1 (sym same))
    | inr later ↦ ground (arith, (is_listed_iff allowed origin).1 later)
  ],
)

-- A requested header that is blank, or one of the four in letters of any case.
abbrev pub IsFineHeader : String → Type 0
IsFineHeader h =
    (trim h ≡ "")
    ⊎ (lower_equals (trim h) "content-type" ≡ true)
    ⊎ (lower_equals (trim h) "authorization" ≡ true)
    ⊎ (lower_equals (trim h) "idempotency-key" ≡ true)
    ⊎ (lower_equals (trim h) "x-request-id" ≡ true)

-- A preflight request that is answered with success.
pub record Preflight (allowed : List String) (r : CorsRequest) : Type 0 where
  pub is_preflight : r.method ≡ "OPTIONS"
  pub has_origin : r.origin ≢ ""
  pub listed : Memᴰ r.origin allowed
  pub method_fine :
      (trim r.requested_method ≡ "GET")
      ⊎ (trim r.requested_method ≡ "POST")
      ⊎ (trim r.requested_method ≡ "OPTIONS")
  pub headers_fine : All IsFineHeader (split_on b',' r.requested_headers)

is_empty_iff : (s : String) → (is_empty s ≡ true) ↔ (s ≡ "")
is_empty_iff empty_text = (λ h. refl, λ h. refl)
is_empty_iff (char_then c s) = (λ h. absurd (ground (arith, h)), λ h. ap is_empty h)

not_empty_iff : (s : String) → (is_empty s ≡ false) ↔ (s ≢ "")
not_empty_iff s = (
  λ h e. ground (arith, h, (is_empty_iff s).1 e),
  λ n. elim (Bool-cases (is_empty s)) [ inl e ↦ absurd (n ((is_empty_iff s).0 e)) | inr e ↦ e ],
)

cors_method_allowed_iff :
    (m : String) → (cors_method_allowed m ≡ true) ↔ ((m ≡ "GET") ⊎ (m ≡ "POST") ⊎ (m ≡ "OPTIONS"))
unfolding cors_method_allowed
cors_method_allowed_iff m = (
  λ h. ground (arith, h, eq_iff m "GET", eq_iff m "POST", eq_iff m "OPTIONS"),
  λ h. ground (arith, h, eq_iff m "GET", eq_iff m "POST", eq_iff m "OPTIONS"),
)

refused_header_iff : (h : String) → (refused_header h ≡ false) ↔ IsFineHeader h
unfolding refused_header cors_header_allowed
refused_header_iff h = (
  λ fine. ground (arith, fine, is_empty_iff (trim h)),
  λ fine. ground (arith, fine, is_empty_iff (trim h)),
)

headers_iff : (hs : List String) → (any refused_header hs ≡ false) ↔ All IsFineHeader hs
headers_iff hs = (
  λ h. All-imp (λ h. (refused_header_iff h).0) hs ((any-false refused_header hs).0 h),
  λ a. (any-false refused_header hs).1 (All-imp (λ h. (refused_header_iff h).1) hs a),
)

no_empty_method : (m : String) → cors_method_allowed m ≡ true → is_empty m ≡ false
unfolding cors_method_allowed
no_empty_method empty_text h = absurd (ground (arith, h))
no_empty_method (char_then c s) h = refl

four_checks :
    (a b c d : Bool) (x y z w : Reply)
    → ((do refuse_if a x; refuse_if b y; refuse_if c z; refuse_if d w; proceeds no_content)
        ≡ proceeds no_content)
      ↔ ((a ≡ false) × (b ≡ false) × (c ≡ false) × (d ≡ false))
four_checks a b c d x y z w = (λ h. ground arith, λ h. ground arith)

answered_iff :
    (asked : Bool) (s : Served CorsStep)
    → ((if asked then s else proceeds passes_on) ≡ proceeds no_content)
      ↔ ((asked ≡ true) × (s ≡ proceeds no_content))
answered_iff true s = (λ h. (refl, h), λ h. h.1)
answered_iff false s = (λ h. absurd (ground (arith, h)), λ h. absurd (ground (arith, h.0)))

answered_as_preflight_iff :
    (allowed : List String) (r : CorsRequest)
    → (((r.method == "OPTIONS") ≡ true) × (preflight allowed r ≡ proceeds no_content))
      ↔ Preflight allowed r
unfolding preflight
answered_as_preflight_iff allowed r =
    let checks =
      four_checks (is_empty r.origin) (not (is_listed allowed r.origin))
        (is_empty (trim r.requested_method) || not (cors_method_allowed (trim r.requested_method)))
        (any refused_header (split_on b',' r.requested_headers)) _ _ _ _ in
    (
      λ h.
          let (origin, other, m, headers) = checks.0 h.1 in
          record {
            is_preflight = (eq_iff r.method "OPTIONS").0 h.0;
            has_origin = (not_empty_iff r.origin).0 origin;
            listed = (is_listed_iff allowed r.origin).0 (ground (arith, other));
            method_fine = (cors_method_allowed_iff _).0 (ground (arith, m));
            headers_fine = (headers_iff _).0 headers;
          },
      λ p. (
        (eq_iff r.method "OPTIONS").1 p.is_preflight,
        checks.1 (
          (not_empty_iff r.origin).1 p.has_origin,
          ground (arith, (is_listed_iff allowed r.origin).1 p.listed),
          (let m = (cors_method_allowed_iff (trim r.requested_method)).1 p.method_fine in
              ground (arith, m, no_empty_method (trim r.requested_method) m)),
          (headers_iff _).1 p.headers_fine,
        ),
      ),
    )

-- A response names the origin of the request as allowed if that is configured; otherwise no header
-- is set, so none names an origin. A request is answered with 204 exactly if it is a preflight
-- request, its origin is not empty and is configured, its method without the space around it is GET,
-- POST or OPTIONS, and every requested header is blank or one of Content-Type, Authorization,
-- Idempotency-Key and X-Request-ID in letters of any case.
pub cors-Preflight :
    (allowed : List String) (r : CorsRequest)
    → (((lookup "Access-Control-Allow-Origin" (cors allowed r).0 ≡ some r.origin)
          × Memᴰ r.origin allowed)
        ⊎ (((cors allowed r).0 ≡ []) × (Memᴰ r.origin allowed → ⊥)))
      × (((cors allowed r).1 ≡ proceeds no_content) ↔ Preflight allowed r)
unfolding cors cors_headers lookup
cors-Preflight allowed r = (
  elim (Bool-cases (is_listed allowed r.origin)) [
    | inl listed ↦ inl (ground (arith, listed), (is_listed_iff allowed r.origin).0 listed)
    | inr other ↦
        inr
          (ground (arith, other), λ m. ground (arith, other, (is_listed_iff allowed r.origin).1 m))
  ],
  (
    λ h. (answered_as_preflight_iff allowed r).0 ((answered_iff _ _).0 h),
    λ p. (answered_iff _ _).1 ((answered_as_preflight_iff allowed r).1 p),
  ),
)
