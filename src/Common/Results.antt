-- ===== src/Common/Results.antt =====
-- Go's `(T, error)` results: a value or an error, with the early return of `if err != nil`.
use Prim.Native.String.{String}
use mathlib.Core.Path.{◌≡◌, refl}
use mathlib.Core.Logic.{◌↔◌, ◌⊎◌, inl, inr}
use mathlib.Core.Bool.{Bool, true, false}
use mathlib.Core.List.{List, [], ◌∷◌}
use native.Mathlib.Omega.{arith}
use webmcp_backend.Common.Lists.{All}
use webmcp_backend.Common.Tests.{◌==◌, string_eq}

-- An `error`: a message of the program, with the text that it formats in; `wrap` is `%w`.
pub data Error : Type 0 where
  message : String → Error
  about : String → String → Error
  wrap : String → Error → Error

-- `errors.Is(err, target)`, for a target with a message that no other error has
abbrev pub is_error : String → Error → Bool
is_error target (message s) = s == target
is_error target (about s x) = false
is_error target (wrap s e) = is_error target e

pub data Result {κ} (T : Type κ) : Type κ where
  err : Error → Result T
  ok : T → Result T

-- The rest of the function runs on the value, unless there is an error to return early.
infixl 5 ◌>>=◌
abbrev pub ◌>>=◌ {κ ℓ} :
    {X : Type κ} {Y : Type ℓ} (first : Result X) (rest : X → Result Y) → Result Y
err early >>= rest = err early
ok x >>= rest = rest x

abbrev pub Checked : Type 0
Checked = Result (Unit {0})

-- A check, and then the rest.
infixl 5 ◌>>◌
abbrev pub ◌>>◌ {κ} : {Y : Type κ} (check : Checked) (rest : Result Y) → Result Y
check >> rest = check >>= λ _. rest

-- `if test { return err }`
abbrev pub reject : Bool → Error → Checked
reject true e = err e
reject false e = ok tt

-- `if err := check; err != nil { return fmt.Errorf("...: %w", err) }`
abbrev pub wrapping : String → Checked → Checked
wrapping s (ok _) = ok tt
wrapping s (err e) = err (wrap s e)

-- `for _, item := range items { if err := check(item); err != nil { return err } }`
abbrev pub each {ℓ} : {A : Type ℓ} → (A → Checked) → List A → Checked
each f [] = ok tt
each f (x ∷ xs) = f x >> each f xs

-- A check passes.
abbrev pub Passes : Checked → Type 0
Passes c = c ≡ ok tt

pub reject-Passes : (b : Bool) (e : Error) → Passes (reject b e) ↔ (b ≡ false)
reject-Passes b e = (λ h. ground arith, λ h. ground arith)

wrapping-Passes : (s : String) (c : Checked) → Passes (wrapping s c) ↔ Passes c
wrapping-Passes s (ok tt) = (λ h. h, λ h. refl)
wrapping-Passes s (err e) = (λ h. cc, λ h. cc)

pub seq-Passes : (c d : Checked) → Passes (c >> d) ↔ (Passes c × Passes d)
seq-Passes (ok tt) d = (λ h. (refl, h), λ h. h.1)
seq-Passes (err e) d = (λ h. cc, λ h. cc)

pub >>=-eq-ok {κ ℓ} :
    {X : Type κ} {Y : Type ℓ} (first : Result X) (next : X → Result Y) {y : Y}
    → (first >>= next) ≡ ok y
    → (x : X) × (first ≡ ok x) × (next x ≡ ok y)
>>=-eq-ok (err e) next stopped = cc
>>=-eq-ok (ok x) next run = (x, refl, run)

-- A loop of checks passes exactly if every element's check does.
module _ {ℓ κ} {A : Type ℓ} (P : A → Type κ) (f : A → Checked) where
  pub each-Passes : ((a : A) → Passes (f a) ↔ P a) → (xs : List A) → Passes (each f xs) ↔ All P xs
  each-Passes h [] = (λ _. tt, λ _. refl)
  each-Passes h (x ∷ xs) = (
    λ p. let (a, b) = (seq-Passes (f x) (each f xs)).0 p in ((h x).0 a, (each-Passes h xs).0 b),
    λ (p, q). (seq-Passes (f x) (each f xs)).1 ((h x).1 p, (each-Passes h xs).1 q),
  )

pub Result-cases {κ} :
    {T : Type κ} (r : Result T)
    → ((value : T) × (r ≡ ok value)) ⊎ ((early : Error) × (r ≡ err early))
Result-cases (err early) = inr (early, refl)
Result-cases (ok value) = inl (value, refl)

pub ok-injective {ℓ} : {A : Type ℓ} {a b : A} → ok a ≡ ok b → a ≡ b
ok-injective h = cc (h)

-- What a check that lets the rest run has tested.
pub reject-then {κ} :
    {T : Type κ} (stop : Bool) (e : Error) (rest : Result T) (y : T)
    → (reject stop e >> rest) ≡ ok y
    → (stop ≡ false) × (rest ≡ ok y)
reject-then true e rest y h = absurd (ground (arith, h))
reject-then false e rest y h = (refl, h)
