-- ===== src/Domain/Planning/Validity.antt =====
-- The validation of a goal decides a declarative description of a well-formed one.
use webmcp_backend.Common.{◌↔◌, ◌<◌, arith, Passes, All, each-Passes}
use webmcp_backend.Common.Int.{pos, ◌<ℤ◌}
use webmcp_backend.Common.Text.{NotBlank}
use webmcp_backend.Domain.Core.{
  IsIdent, IsActorType, validate_id-Passes, validate_actor_type-Passes,
}
use webmcp_backend.Domain.Planning.{
  GoalStatus, Preference, Constraint, Goal, validate_constraint, validate_goal,
}

pub record IsConstraint (c : Constraint) : Type 0 where
  pub ident : IsIdent c.id
  pub goal : IsIdent c.goal_id
  pub key : NotBlank c.key
  pub value : NotBlank c.value
  pub creator : IsActorType c.created_by

pub validate_constraint-Passes : (c : Constraint) → Passes (validate_constraint c) ↔ IsConstraint c
unfolding validate_constraint
validate_constraint-Passes c = (
  λ h. ground (
    arith,
    validate_id-Passes c.id "constraint_id",
    validate_id-Passes c.goal_id "goal_id",
    validate_actor_type-Passes c.created_by,
  ),
  λ v. ground (
    arith,
    (validate_id-Passes c.id "constraint_id").1 v.ident,
    (validate_id-Passes c.goal_id "goal_id").1 v.goal,
    (validate_actor_type-Passes c.created_by).1 v.creator,
  ),
)

abbrev IsPreference : Preference → Type 0
IsPreference (Preference.other _) = ⊥
IsPreference _ = Unit

abbrev IsGoalStatus : GoalStatus → Type 0
IsGoalStatus (GoalStatus.other _) = ⊥
IsGoalStatus _ = Unit

record IsGoal (g : Goal) : Type 0 where
  pub ident : IsIdent g.id
  pub business : IsIdent g.business_id
  pub objective : NotBlank g.objective
  pub horizon : pos 0 <ℤ g.time_horizon_days
  pub versioned : 0 < g.version
  pub preference : IsPreference g.preference
  pub status : IsGoalStatus g.status
  pub constraints : All IsConstraint g.constraints

-- A goal passes validation exactly if it and each of its constraints are well formed.
validate_goal-Passes : (g : Goal) → Passes (validate_goal g) ↔ IsGoal g
unfolding validate_goal
validate_goal-Passes g = (
  λ h. ground (
    arith,
    validate_id-Passes g.id "goal_id",
    validate_id-Passes g.business_id "business_id",
    each-Passes IsConstraint validate_constraint validate_constraint-Passes g.constraints,
  ),
  λ v. ground (
    arith,
    (validate_id-Passes g.id "goal_id").1 v.ident,
    (validate_id-Passes g.business_id "business_id").1 v.business,
    (each-Passes IsConstraint validate_constraint validate_constraint-Passes g.constraints).1
        v.constraints,
  ),
)
