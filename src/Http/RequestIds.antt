-- ===== src/Http/RequestIds.antt =====
-- internal/httpapi/middleware.go: the request identifier that a client proposes.
use Prim.Native.Char.{code}
use Prim.Native.String.{len, [], ◌∷◌}
use webmcp_backend.Common.{
  ℕ, ◌≡◌, ◌≤◌, ◌⊎◌, inl, inr, refl, ap, ◌∙◌, String, Bool, true, false, not, ◌&&◌, ◌||◌, Option,
  none, some, ◌==◌, nat_eq, ltb, leb, arith, Bool-cases, if◌then◌else◌,
}
use webmcp_backend.Common.Text.{trim, is_empty}

-- A letter, a digit, `-`, `_` or `.`
unfoldable allowed_character : ℕ → Bool
allowed_character c =
    (leb b'a' c && leb c b'z')
    || (leb b'A' c && leb c b'Z')
    || (leb b'0' c && leb c b'9')
    || c == b'-'
    || c == b'_'
    || c == b'.'

unfoldable allowed_characters : String → Bool
unfolding allowed_character
allowed_characters [] = true
allowed_characters (c ∷ s) = allowed_character (code c) && allowed_characters s

-- `sanitizeRequestID`
unfoldable sanitize_request_id : String → String
unfolding allowed_characters
sanitize_request_id value =
    if len (trim value) == 0 || ltb 128 (len (trim value)) || not (allowed_characters (trim value))
    then ""
    else trim value

-- `newRequestID`; `random` is the hexadecimal text of sixteen random bytes, `none` where
-- `rand.Read` fails
unfoldable new_request_id : Option String → String
new_request_id none = "request-unknown"
new_request_id (some bytes) = bytes

-- `requestIDMiddleware`: the identifier of a request.
unfoldable pub request_id : String → Option String → String
unfolding sanitize_request_id new_request_id
request_id header random =
    if is_empty (sanitize_request_id header)
    then new_request_id random
    else sanitize_request_id header

-- A text that a server may take from a client as an identifier.
abbrev Acceptable : String → Type 0
Acceptable v = (len v ≤ 128) × (allowed_characters v ≡ true)

sanitized :
    (v : String) (refused : Bool)
    → (len v == 0 || ltb 128 (len v) || not (allowed_characters v)) ≡ refused
    → ((if refused then "" else v) ≡ "") ⊎ (((if refused then "" else v) ≡ v) × Acceptable v)
sanitized v true e = inl refl
sanitized v false e = inr (refl, (ground (arith, e), ground (arith, e)))

abbrev chosen : String → Option String → String
chosen v random = if is_empty v then new_request_id random else v

-- The identifier of a request is the server's own, or one that the client proposes: its header
-- without the space around it, of at most 128 bytes, in letters, digits, `-`, `_` and `.`.
request_id-cases :
    (header : String) (random : Option String)
    → (request_id header random ≡ new_request_id random)
      ⊎ ((request_id header random ≡ trim header) × Acceptable (trim header))
unfolding request_id sanitize_request_id
request_id-cases header random = elim (sanitized (trim header) _ refl) [
  | inl none_left ↦ inl (ap (λ v. chosen v random) none_left)
  | inr (kept, fine) ↦ elim (Bool-cases (is_empty (trim header))) [
    | inl empty ↦ inl (
        ap (λ v. chosen v random) kept
        ∙ ap (λ b. if b then new_request_id random else trim header) empty)
    | inr proposed ↦ inr (
      ap (λ v. chosen v random) kept
          ∙ ap (λ b. if b then new_request_id random else trim header) proposed,
      fine,
    )
  ]
]
