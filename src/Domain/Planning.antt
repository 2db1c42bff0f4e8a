-- ===== src/Domain/Planning.antt =====
-- internal/domain/planning/planning.go: goals, their constraints and the goal's state machine.
pub mod Laws
pub mod Validity
use webmcp_backend.Common.{
  ℕ, ◌≡◌, ◌↔◌, String, Bool, true, false, not, ◌||◌, List, ap, arith, ◌==◌, nat_eq, Eq, eq_iff,
  string_eq, if◌then◌else◌, message, about, Result, ok, err, Checked, reject, each, ◌>>=◌, ◌>>◌,
}
use webmcp_backend.Common.Text.{is_blank}
use webmcp_backend.Common.Int.{ℤ, pos, leb_ℤ, add_u64}
use webmcp_backend.Domain.Core.{Ident, ActorType, validate_id, validate_actor_type}

-- `other` holds any string but the four.
pub data GoalStatus : Type 0 where
  draft active completed cancelled : GoalStatus
  other : String → GoalStatus

abbrev goal_status_beq : GoalStatus → GoalStatus → Bool
goal_status_beq draft draft = true
goal_status_beq active active = true
goal_status_beq completed completed = true
goal_status_beq cancelled cancelled = true
goal_status_beq (other a) (other b) = a == b
goal_status_beq _ _ = false

pub goal_status_beq_iff : (a b : GoalStatus) → (goal_status_beq a b ≡ true) ↔ (a ≡ b)
goal_status_beq_iff (other a) (other b) =
    (λ h. ap other ((eq_iff a b).0 h), λ h. (eq_iff a b).1 (ground arith))
goal_status_beq_iff _ _ = (λ h. ground arith, λ h. ground arith)

instance abbrev pub goal_status_eq : Eq GoalStatus
goal_status_eq = record { beq = goal_status_beq; beq_iff = goal_status_beq_iff }

pub data Preference : Type 0 where
  conservative balanced aggressive : Preference
  other : String → Preference

pub record Constraint : Type 0 where
  pub id : Ident
  pub goal_id : Ident
  pub key : String
  pub value : String
  pub hard : Bool
  pub created_by : ActorType

unfoldable pub validate_constraint : Constraint → Checked
validate_constraint c = do
  validate_id c.id "constraint_id"
  validate_id c.goal_id "goal_id"
  reject (is_blank c.key || is_blank c.value) (message "constraint key and value are required")
  validate_actor_type c.created_by

pub record Goal : Type 0 where
  pub id : Ident
  pub business_id : Ident
  pub objective : String
  pub time_horizon_days : ℤ
  pub preference : Preference
  pub constraints : List Constraint
  pub status : GoalStatus
  pub version : ℕ

abbrev check_preference : Preference → Checked
check_preference (other p) = err (about "invalid goal preference" p)
check_preference _ = ok tt

-- `validGoalStatus`
abbrev valid_goal_status : GoalStatus → Bool
valid_goal_status s =
    s == GoalStatus.draft
    || s == GoalStatus.active
    || s == GoalStatus.completed
    || s == GoalStatus.cancelled

unfoldable pub validate_goal : Goal → Checked
validate_goal g = do
  validate_id g.id "goal_id"
  validate_id g.business_id "business_id"
  reject (is_blank g.objective || leb_ℤ g.time_horizon_days (pos 0) || g.version == 0)
      (message "goal objective, positive horizon and version are required")
  check_preference g.preference
  reject (not (valid_goal_status g.status)) (message "invalid goal status")
  each validate_constraint g.constraints

-- The `switch` of `CanTransition` on the goal's status.
abbrev can_transition_from : GoalStatus → GoalStatus → Bool
can_transition_from draft to = to == GoalStatus.active || to == GoalStatus.cancelled
can_transition_from active to = to == GoalStatus.completed || to == GoalStatus.cancelled
can_transition_from completed to = false
can_transition_from cancelled to = false
can_transition_from (other _) to = false

unfoldable pub can_transition : Goal → GoalStatus → Bool
can_transition g to = can_transition_from g.status to

unfoldable pub transition : Goal → GoalStatus → Result Goal
unfolding can_transition
transition g to = do
  reject (not (can_transition g to)) (message "invalid goal transition")
  ok (record g { status = to; version = add_u64 g.version 1 })
