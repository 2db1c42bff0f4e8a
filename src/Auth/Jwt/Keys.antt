-- ===== src/Auth/Jwt/Keys.antt =====
-- internal/auth/jwt.go: the keys of the issuer, their lifetime, and when they are fetched.
pub mod Sound
use webmcp_backend.Common.{
  ℕ, suc, ◌+◌, ◌*◌, ◌%◌, ◌^◌, String, Bool, true, false, not, ◌&&◌, ◌||◌, Option, none, some, List,
  [], ◌∷◌, length, ltb, leb, ◌==◌, nat_eq, string_eq, if◌then◌else◌, Error, message, Result, ok,
  err, Checked, reject, ◌>>=◌, ◌>>◌,
}
use webmcp_backend.Common.Int.{ℤ, pos, ltb_ℤ}
use webmcp_backend.Common.Maps.{Map, lookup, insert}
use webmcp_backend.Common.Text.{is_empty}
use webmcp_backend.Auth.Jwt.Tokens.{Bytes, invalid_token, required, second}

pub record PublicKey : Type 0 where
  pub modulus : ℕ
  pub exponent : ℕ

-- An item of the `keys` of the document.
pub record KeyItem : Type 0 where
  pub key_type : String
  pub key_id : String
  pub algorithm : String
  pub key_use : String
  pub modulus : String
  pub exponent : String

-- `keys` and `refreshedAt`; the zero time is `none`.
pub record KeyCache : Type 0 where
  pub keys : Map PublicKey
  pub refreshed_at : Option ℕ

-- What the request for the keys comes to: no response, or a status, a `ContentLength` and a body,
-- which may not be read to its end.
pub data Fetched : Type 0 where
  unreachable : Fetched
  responds : ℕ → ℤ → Option Bytes → Fetched

abbrev max_jwks_size : ℕ
max_jwks_size = 1048576

abbrev jwks_cache_lifetime : ℕ
jwks_cache_lifetime = 600 * second

-- The number that big-endian bytes stand for: `SetBytes`, and the loop over an exponent's bytes.
abbrev value_from : ℕ → Bytes → ℕ
value_from acc [] = acc
value_from acc (b ∷ bytes) = value_from (acc * 256 + b) bytes

-- `cachedKey`
unfoldable pub cached_key : KeyCache → ℕ → String → Option PublicKey
cached_key cache now key_id = elim cache.refreshed_at [
  | none ↦ none
  | some at ↦ if leb (at + jwks_cache_lifetime) now then none else lookup key_id cache.keys
]

abbrev pub skipped : KeyItem → Bool
skipped item =
    not (item.key_type == "RSA")
    || is_empty item.key_id
    || (not (is_empty item.algorithm) && not (item.algorithm == "RS256"))
    || (not (is_empty item.key_use) && not (item.key_use == "sig"))

abbrev pub sized_modulus : Option Bytes → Option ℕ
sized_modulus none = none
sized_modulus (some bytes) =
    if ltb (length bytes) 256 || ltb 1024 (length bytes) then none else some (value_from 0 bytes)

abbrev pub sized_exponent : Option Bytes → Option ℕ
sized_exponent none = none
sized_exponent (some bytes) =
    if length bytes == 0 || ltb 4 (length bytes) then none else some (value_from 0 bytes)

abbrev odd_exponent : ℕ → ℕ → Option PublicKey
odd_exponent modulus exponent =
    if ltb exponent 3 || exponent % 2 == 0
    then none
    else some (record { modulus = modulus; exponent = exponent })

abbrev pub sized_key : Option ℕ → Option ℕ → Option PublicKey
sized_key (some modulus) (some exponent) = odd_exponent modulus exponent
sized_key _ _ = none

abbrev add_key : String → Option PublicKey → Map PublicKey → Map PublicKey
add_key key_id none keys = keys
add_key key_id (some key) keys = insert key_id key keys

abbrev pub some_keys : Map PublicKey → Result (Map PublicKey)
some_keys [] = err invalid_token
some_keys (entry ∷ entries) = ok (entry ∷ entries)

abbrev pub some_items : List KeyItem → Result (List KeyItem)
some_items [] = err invalid_token
some_items (item ∷ items) = ok (item ∷ items)

-- The body of a response that may be read.
abbrev pub body_of : Fetched → Result Bytes
body_of unreachable = err (message "JWKS endpoint is unreachable")
body_of (responds status content_length body) =
    if not (status == 200) || ltb_ℤ (pos max_jwks_size) content_length
    then err (message "JWKS endpoint returned status")
    else required body

-- What is left of `publicKey` after the refresh.
abbrev pub look_again : Checked → ℕ → String → KeyCache → Result PublicKey × KeyCache
look_again (err e) now key_id cache = (err e, cache)
look_again (ok _) now key_id cache = (required (cached_key cache now key_id), cache)

-- The cache after a refresh: an error leaves it alone.
abbrev pub set_keys : ℕ → KeyCache → Result (Map PublicKey) → Checked × KeyCache
set_keys at cache (err e) = (err e, cache)
set_keys at cache (ok keys) = (ok tt, record { keys = keys; refreshed_at = some at })

-- A key that is known, or what is found after the refresh.
abbrev pub known_or :
    Option PublicKey → ℕ → String → KeyCache → Checked × KeyCache → Result PublicKey × KeyCache
known_or (some key) again key_id cache renewed = (ok key, cache)
known_or none again key_id cache renewed = look_again renewed.0 again key_id renewed.1

module _ (decode : String → Option Bytes) (document : Bytes → Option (List KeyItem)) where
  -- The body of the loop over the items: a key, or `continue`.
  unfoldable pub key_of : KeyItem → Option PublicKey
  key_of item =
      if skipped item
      then none
      else sized_key (sized_modulus (decode item.modulus)) (sized_exponent (decode item.exponent))

  unfoldable pub collect_keys : List KeyItem → Map PublicKey → Map PublicKey
  unfolding key_of
  collect_keys [] keys = keys
  collect_keys (item ∷ items) keys = collect_keys items (add_key item.key_id (key_of item) keys)

  -- The keys that `refresh` fetches.
  unfoldable pub fetch_keys : Fetched → Result (Map PublicKey)
  unfolding collect_keys
  fetch_keys fetched = do
    body ← body_of fetched
    reject (ltb max_jwks_size (length body)) invalid_token
    items ← required (document body)
    items' ← some_items items
    some_keys (collect_keys items' [])

  -- `refresh`, where the new keys are set at a time.
  unfoldable pub refresh : ℕ → Fetched → KeyCache → Checked × KeyCache
  unfolding fetch_keys
  refresh at fetched cache = set_keys at cache (fetch_keys fetched)

  -- `publicKey`, with the times at which it looks, refreshes and looks again.
  unfoldable pub public_key :
      (first refreshed again : ℕ) → Fetched → String → KeyCache → Result PublicKey × KeyCache
  unfolding refresh cached_key
  public_key first refreshed again fetched key_id cache =
      known_or (cached_key cache first key_id) again key_id cache (refresh refreshed fetched cache)
