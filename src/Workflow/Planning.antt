-- ===== src/Workflow/Planning.antt =====
-- internal/application/planningworkflow/service.go: a human adds a constraint to a goal.
pub mod Added
use Prim.Native.String.{len}
use webmcp_backend.Common.{String, Bool, ◌||◌, Option, [], ◌∷◌, ltb, message, Result, ok}
use webmcp_backend.Common.Text.{trim, is_empty, is_blank}
use webmcp_backend.Common.Io.{Io, ◌>>=◌, ◌>>◌, lift, reject}
use webmcp_backend.Domain.Core.{Ident, human, validate_ids}
use webmcp_backend.Domain.Planning.{Constraint, validate_constraint}
use webmcp_backend.Workflow.Ports.{ConstraintWriter, Random, fresh_id, required}

pub record ConstraintInput : Type 0 where
  pub organization_id : Ident
  pub actor_id : Ident
  pub goal_id : Ident
  pub key : String
  pub value : String
  pub hard : Bool
  pub request_id : String

-- The constraint that `AddConstraint` builds.
unfoldable pub constraint_for : ConstraintInput → Ident → Constraint
constraint_for i id = record {
  id = id;
  goal_id = i.goal_id;
  key = trim i.key;
  value = trim i.value;
  hard = i.hard;
  created_by = human;
}

module _ {W : Type 0} (random : Random W) (writer : Option (ConstraintWriter W)) where
  -- `AddConstraint`
  unfoldable pub add_constraint : ConstraintInput → Io W Constraint
  add_constraint i = do
    lift (
        validate_ids (
          ("organization_id", i.organization_id)
          ∷ ("actor_id", i.actor_id)
          ∷ ("goal_id", i.goal_id)
          ∷ []))
    reject
        (is_empty (trim i.key)
          || ltb 120 (len (trim i.key))
          || is_empty (trim i.value)
          || ltb 500 (len (trim i.value))
          || is_blank i.request_id)
        (message "constraint key, value and request_id are required within their limits")
    repository ← required "planning workflow dependencies are unavailable" writer
    id ← fresh_id random "constraint"
    lift (validate_constraint (constraint_for i id))
    repository.add_constraint i.organization_id i.actor_id (constraint_for i id) i.request_id
    lift (ok (constraint_for i id))
