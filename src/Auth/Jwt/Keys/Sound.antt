-- ===== src/Auth/Jwt/Keys/Sound.antt =====
-- internal/auth/jwt.go: every key in the cache can be an RSA key, and an old cache is not used.
use webmcp_backend.Common.{
  ℕ, ◌%◌, ◌≤◌, ◌≡◌, ◌⊎◌, inl, inr, refl, ap, ◌∙◌, String, Option, none, some, List, [], ◌∷◌, All,
  ◌==◌, nat_eq, string_eq, Result, ok, err, Checked, arith, Bool-cases, Option-cases, >>=-eq-ok,
  reject-then, ok-injective,
}
use mathlib.Core.Path.{subst}
use webmcp_backend.Common.Maps.{Map, lookup, insert}
use webmcp_backend.Auth.Jwt.Tokens.{Bytes, invalid_token, required}
use webmcp_backend.Auth.Jwt.Keys.{
  PublicKey, KeyItem, KeyCache, Fetched, cached_key, skipped, sized_modulus, sized_exponent,
  sized_key, key_of, collect_keys, some_keys, some_items, body_of, fetch_keys, refresh, look_again,
  set_keys, known_or, public_key,
}

-- An odd exponent of at least three.
pub record IsSound (key : PublicKey) : Type 0 where
  pub least : 3 ≤ key.exponent
  pub odd : key.exponent % 2 ≡ 1

abbrev pub AreSound : Map PublicKey → Type 0
AreSound = All (λ entry. IsSound entry.1)

AreSound-insert :
    (key_id : String) (key : PublicKey) (keys : Map PublicKey)
    → IsSound key
    → AreSound keys
    → AreSound (insert key_id key keys)
unfolding insert
AreSound-insert key_id key [] sound h = (sound, tt)
AreSound-insert key_id key ((k, old) ∷ keys) sound (h, hs) = elim (Bool-cases (k == key_id)) [
  | inl e ↦ rw e (sound, hs)
  | inr e ↦ rw e (h, AreSound-insert key_id key keys sound hs)
]

AreSound-lookup :
    (key_id : String) (keys : Map PublicKey) {key : PublicKey}
    → AreSound keys
    → lookup key_id keys ≡ some key
    → IsSound key
unfolding lookup
AreSound-lookup key_id [] hs found = absurd (ground (arith, found))
AreSound-lookup key_id ((k, old) ∷ keys) (h, hs) found = elim (Bool-cases (k == key_id)) [
  | inl e ↦ subst IsSound (ground (arith, found, e)) h
  | inr e ↦ AreSound-lookup key_id keys hs (ground (arith, found, e))
]

sized_key-IsSound :
    (modulus exponent : Option ℕ) (key : PublicKey)
    → sized_key modulus exponent ≡ some key
    → IsSound key
sized_key-IsSound none e key h = absurd (ground (arith, h))
sized_key-IsSound (some m) none key h = absurd (ground (arith, h))
sized_key-IsSound (some m) (some e) key h = ground (arith, h)

some_keys-ok :
    (keys : Map PublicKey) (keys' : Map PublicKey) → some_keys keys ≡ ok keys' → keys ≡ keys'
some_keys-ok [] keys' h = absurd (ground (arith, h))
some_keys-ok (entry ∷ entries) keys' h = ok-injective h

look_again-AreSound :
    (done : Checked) (again : ℕ) (key_id : String) (cache : KeyCache)
    → AreSound cache.keys
    → AreSound (look_again done again key_id cache).1.keys
look_again-AreSound (err e) again key_id cache h = h
look_again-AreSound (ok _) again key_id cache h = h

known_or-AreSound :
    (known : Option PublicKey) (again : ℕ) (key_id : String) (cache : KeyCache)
    (renewed : Checked × KeyCache)
    → AreSound cache.keys
    → AreSound renewed.1.keys
    → AreSound (known_or known again key_id cache renewed).1.keys
known_or-AreSound none again key_id cache renewed h k =
    look_again-AreSound renewed.0 again key_id renewed.1 k
known_or-AreSound (some key) again key_id cache renewed h k = h

required-ok : {A : Type 0} (o : Option A) {a : A} → required o ≡ ok a → o ≡ some a
required-ok none h = absurd (ground (arith, h))
required-ok (some a) h = ground (arith, h)

look_again-cached :
    (done : Checked) (again : ℕ) (key_id : String) (cache : KeyCache) {key : PublicKey}
    {cache' : KeyCache}
    → look_again done again key_id cache ≡ (ok key, cache')
    → cached_key cache' again key_id ≡ some key
look_again-cached (err e) again key_id cache h = absurd (ground (arith, h))
look_again-cached (ok _) again key_id cache {key} h =
    subst (λ c. cached_key c again key_id ≡ some key) (ap (λ r. r.1) h)
      (required-ok (cached_key cache again key_id) (ap (λ r. r.0) h))

known_or-cached :
    (first again : ℕ) (key_id : String) (cache : KeyCache) (renewed : Checked × KeyCache)
    (known : Option PublicKey) {key : PublicKey} {cache' : KeyCache}
    → cached_key cache first key_id ≡ known
    → known_or known again key_id cache renewed ≡ (ok key, cache')
    → (cached_key cache' first key_id ≡ some key) ⊎ (cached_key cache' again key_id ≡ some key)
known_or-cached first again key_id cache renewed none looked h =
    inr (look_again-cached renewed.0 again key_id renewed.1 h)
known_or-cached first again key_id cache renewed (some k) {key} looked h = inl (
    subst (λ c. cached_key c first key_id ≡ some key) (ap (λ r. r.1) h)
      (looked ∙ ap some (ok-injective (ap (λ r. r.0) h))))

module _ (decode : String → Option Bytes) (document : Bytes → Option (List KeyItem)) where
  key_of-IsSound :
      (item : KeyItem) (key : PublicKey) → key_of decode document item ≡ some key → IsSound key
  unfolding key_of
  key_of-IsSound item key h = elim (Bool-cases (skipped item)) [
    | inl e ↦ absurd (ground (arith, h, e))
    | inr e ↦
        sized_key-IsSound (sized_modulus (decode item.modulus))
          (sized_exponent (decode item.exponent)) key (ground (arith, h, e))
  ]

  collect_keys-AreSound :
      (items : List KeyItem) (keys : Map PublicKey)
      → AreSound keys
      → AreSound (collect_keys decode document items keys)
  unfolding collect_keys
  collect_keys-AreSound [] keys h = h
  collect_keys-AreSound (item ∷ items) keys h = elim (Option-cases (key_of decode document item)) [
    | inl e ↦ rw e (collect_keys-AreSound items keys h)
    | inr (key, e) ↦ rw e (
        collect_keys-AreSound items (insert item.key_id key keys)
          (AreSound-insert item.key_id key keys (key_of-IsSound item key e) h))
  ]

  fetch_keys-AreSound :
      (fetched : Fetched) (keys : Map PublicKey)
      → fetch_keys decode document fetched ≡ ok keys
      → AreSound keys
  unfolding fetch_keys
  fetch_keys-AreSound fetched keys h =
      let (body, _, h1) = >>=-eq-ok (body_of fetched) _ h in
      let (_, h2) = reject-then _ invalid_token _ keys h1 in
      let (items, _, h3) = >>=-eq-ok (required (document body)) _ h2 in
      let (items', _, h4) = >>=-eq-ok (some_items items) _ h3 in
      subst AreSound (some_keys-ok (collect_keys decode document items' []) keys h4)
        (collect_keys-AreSound items' [] tt)

  set_keys-AreSound :
      (at : ℕ) (fetched : Fetched) (cache : KeyCache) (r : Result (Map PublicKey))
      → fetch_keys decode document fetched ≡ r
      → AreSound cache.keys
      → AreSound (set_keys at cache r).1.keys
  set_keys-AreSound at fetched cache (err e) run h = h
  set_keys-AreSound at fetched cache (ok keys) run h = fetch_keys-AreSound fetched keys run

  -- Whatever the endpoint answers, a refresh leaves a cache of sound keys so.
  refresh-AreSound :
      (at : ℕ) (fetched : Fetched) (cache : KeyCache)
      → AreSound cache.keys
      → AreSound (refresh decode document at fetched cache).1.keys
  unfolding refresh
  refresh-AreSound at fetched cache h = set_keys-AreSound at fetched cache _ refl h

  module _ (first refreshed again : ℕ) (fetched : Fetched) (key_id : String)
      (cache : KeyCache) where
    -- The keys of a cache stay sound, whatever the endpoint answers to a request for a key.
    pub public_key-AreSound :
        AreSound cache.keys
        → AreSound (public_key decode document first refreshed again fetched key_id cache).1.keys
    unfolding public_key
    public_key-AreSound h =
        known_or-AreSound (cached_key cache first key_id) again key_id cache
          (refresh decode document refreshed fetched cache) h
          (refresh-AreSound refreshed fetched cache h)

    -- A key that is returned is in the cache that is left, and this is not too old at one of the
    -- two times of looking.
    pub public_key-cached :
        {key : PublicKey} {cache' : KeyCache}
        → public_key decode document first refreshed again fetched key_id cache ≡ (ok key, cache')
        → (cached_key cache' first key_id ≡ some key) ⊎ (cached_key cache' again key_id ≡ some key)
    unfolding public_key
    public_key-cached h =
        known_or-cached first again key_id cache (refresh decode document refreshed fetched cache) _
          refl h
