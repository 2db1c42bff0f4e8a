-- ===== src/Common/Lists.antt =====
-- Lists with native lengths, and predicates and tests over their elements.
use Prim.Native.Nat.{ℕ, suc, ◌+◌}
use mathlib.Core.Path.{◌≡◌, refl}
use mathlib.Core.Logic.{◌↔◌, inl, inr}
use mathlib.Core.Bool.{Bool, true, false, ◌||◌}
use mathlib.Core.Option.{Option, none, some}
use mathlib.Core.List.{List, [], ◌∷◌, ◌++◌, Memᴰ}
use native.Mathlib.Omega.{arith}
use webmcp_backend.Common.Tests.{if◌then◌else◌, Bool-cases}

module _ {ℓ} {A : Type ℓ} where
  abbrev pub length : List A → ℕ
  length [] = 0
  length (x ∷ xs) = suc (length xs)

  abbrev pub any : (A → Bool) → List A → Bool
  any p [] = false
  any p (x ∷ xs) = p x || any p xs

  -- The first element that a test accepts.
  abbrev pub find? : (A → Bool) → List A → Option A
  find? p [] = none
  find? p (x ∷ xs) = if p x then some x else find? p xs

  abbrev pub filter : (A → Bool) → List A → List A
  filter p [] = []
  filter p (x ∷ xs) = let rest = filter p xs in if p x then x ∷ rest else rest

  pub length-append : (xs ys : List A) → length (xs ++ ys) ≡ length xs + length ys
  length-append [] ys = omega arith
  length-append (x ∷ xs) ys = omega (arith, length-append xs ys)

module _ {ℓ κ} {A : Type ℓ} (P : A → Type κ) where
  abbrev pub All : List A → Type κ
  All [] = Unit
  All (x ∷ xs) = P x × All xs

module _ {ℓ} {A : Type ℓ} (f : A → Bool) where
  pub any-false : (xs : List A) → (any f xs ≡ false) ↔ All (λ x. f x ≡ false) xs
  any-false [] = (λ h. tt, λ h. refl)
  any-false (x ∷ xs) = (
    λ h. (ground (arith, h), (any-false xs).0 (ground (arith, h))),
    λ h. ground (arith, h.0, (any-false xs).1 h.1),
  )

  -- The element that makes a test of a list true.
  pub any-true : (xs : List A) → any f xs ≡ true → (x : A) × Memᴰ x xs × (f x ≡ true)
  any-true [] h = absurd (ground (arith, h))
  any-true (x ∷ xs) h = elim (Bool-cases (f x)) [
    | inl here ↦ (x, Memᴰ.head refl, here)
    | inr other ↦
        let (y, later, found) = any-true xs (ground (arith, h, other)) in
        (y, Memᴰ.tail later, found)
  ]

pub All-imp {ℓ κ μ} :
    {A : Type ℓ} {P : A → Type κ} {Q : A → Type μ}
    → ((x : A) → P x → Q x)
    → (xs : List A) → All P xs
    → All Q xs
All-imp f [] h = tt
All-imp f (x ∷ xs) h = (f x h.0, All-imp f xs h.1)
