-- ===== src/Domain/Core.antt =====
-- internal/domain/core/core.go: identifiers and actor types.
use Prim.Native.String.{len, ◌++◌}
use mathlib.Core.Path.{subst}
use mathlib.Core.List.{Permᴰ}
use webmcp_backend.Common.{
  ◌≤◌, String, ◌↔◌, Option, none, some, refl, arith, ltb, message, about, wrap, Result, ok, err,
  Checked, reject, Passes, each, All, each-Passes, List, ◌>>◌,
}
use webmcp_backend.Common.Text.{is_blank, NotBlank}

-- `core.ID`
abbrev pub Ident : Type 0
Ident = String

unfoldable pub validate_id : Ident → String → Checked
validate_id id label = do
  reject (is_blank id) (about "is required" label)
  reject (ltb 200 (len id)) (about "is too long" label)

-- `NewID`; `random` is the hexadecimal text of sixteen random bytes, `none` where `rand.Read` fails
unfoldable pub new_id : String → Option String → Result Ident
new_id prefix random = do
  validate_id prefix "id_prefix"
  elim random [
    | none ↦ err (wrap "generate id" (message "rand.Read"))
    | some bytes ↦ ok (prefix ++ "-" ++ bytes)
  ]

-- A Go string that names an actor type; `other` holds any string but the three.
pub data ActorType : Type 0 where
  human agent system : ActorType
  other : String → ActorType

unfoldable pub validate_actor_type : ActorType → Checked
validate_actor_type human = ok tt
validate_actor_type agent = ok tt
validate_actor_type system = ok tt
validate_actor_type (other a) = err (about "invalid actor type" a)

pub record IsIdent (id : Ident) : Type 0 where
  pub not_blank : NotBlank id
  pub short : len id ≤ 200

-- An identifier passes exactly if it is not blank and has at most 200 bytes.
pub validate_id-Passes : (id : Ident) (label : String) → Passes (validate_id id label) ↔ IsIdent id
unfolding validate_id
validate_id-Passes id label = (λ h. ground arith, λ h. ground arith)

abbrev pub IsActorType : ActorType → Type 0
IsActorType (other _) = ⊥
IsActorType _ = Unit

pub validate_actor_type-Passes : (a : ActorType) → Passes (validate_actor_type a) ↔ IsActorType a
unfolding validate_actor_type
validate_actor_type-Passes (other a) = (λ h. cc, λ h. absurd h)
validate_actor_type-Passes human = (λ _. tt, λ _. refl)
validate_actor_type-Passes agent = (λ _. tt, λ _. refl)
validate_actor_type-Passes system = (λ _. tt, λ _. refl)

-- `for label, id := range map[string]core.ID{...} { if err := id.Validate(label) ... }`: Go runs
-- through a map in an order of its own, and the list is one such order.
unfoldable pub validate_ids : List (String × Ident) → Checked
validate_ids ids = each (λ p. validate_id p.1 p.0) ids

pub validate_ids-Passes :
    (ids : List (String × Ident)) → Passes (validate_ids ids) ↔ All (λ p. IsIdent p.1) ids
unfolding validate_ids
validate_ids-Passes ids =
    each-Passes (λ p. IsIdent p.1) (λ p. validate_id p.1 p.0) (λ p. validate_id-Passes p.1 p.0) ids

All-Permᴰ :
    {ids ids' : List (String × Ident)}
    → Permᴰ ids ids'
    → All (λ p. IsIdent p.1) ids
    → All (λ p. IsIdent p.1) ids'
All-Permᴰ Permᴰ.nil h = h
All-Permᴰ (Permᴰ.cons e p) (h, hs) = (subst (λ p. IsIdent p.1) e h, All-Permᴰ p hs)
All-Permᴰ (Permᴰ.swap e f) (h, (k, hs)) =
    (subst (λ p. IsIdent p.1) f k, (subst (λ p. IsIdent p.1) e h, hs))
All-Permᴰ (Permᴰ.trans p q) h = All-Permᴰ q (All-Permᴰ p h)

-- Whether the identifiers of a map pass does not depend on the order in which Go runs through it.
validate_ids_order :
    (ids ids' : List (String × Ident))
    → Permᴰ ids ids'
    → Passes (validate_ids ids)
    → Passes (validate_ids ids')
validate_ids_order ids ids' p h =
    (validate_ids-Passes ids').1 (All-Permᴰ p ((validate_ids-Passes ids).0 h))
