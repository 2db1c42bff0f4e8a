-- ===== src/Domain/Scenario.antt =====
-- internal/domain/scenario/scenario.go: strategic scenarios, their bounded actions and the
-- scenario's state machine. Go's maps of metrics are association lists.
pub mod Laws
pub mod Validity
pub mod Simulation
pub mod Comparison
use webmcp_backend.Common.{
  ℕ, ◌≡◌, ◌↔◌, String, Bool, true, false, not, ◌||◌, List, [], ◌∷◌, ap, arith, ◌==◌, nat_eq, Eq,
  eq_iff, string_eq, message, about, Result, ok, err, Checked, reject, each, ◌>>◌, ◌>>=◌,
}
use webmcp_backend.Common.Text.{is_blank}
use webmcp_backend.Common.Int.{ℤ, pos, negsuc, add_u64}
use webmcp_backend.Common.Float.{Float64}
use webmcp_backend.Common.Maps.{Map}
use webmcp_backend.Domain.Core.{Ident, validate_id, validate_ids}

-- `other` holds any string but the four.
pub data Status : Type 0 where
  draft simulated compared archived : Status
  other : String → Status

abbrev status_beq : Status → Status → Bool
status_beq draft draft = true
status_beq simulated simulated = true
status_beq compared compared = true
status_beq archived archived = true
status_beq (other a) (other b) = a == b
status_beq _ _ = false

pub status_beq_iff : (a b : Status) → (status_beq a b ≡ true) ↔ (a ≡ b)
status_beq_iff (other a) (other b) =
    (λ h. ap other ((eq_iff a b).0 h), λ h. (eq_iff a b).1 (ground arith))
status_beq_iff _ _ = (λ h. ground arith, λ h. ground arith)

instance abbrev pub status_eq : Eq Status
status_eq = record { beq = status_beq; beq_iff = status_beq_iff }

pub record Assumption : Type 0 where
  pub key : String
  pub value : String

pub data ActionType : Type 0 where
  price_adjustment inventory_replenish marketing_budget : ActionType
  other : String → ActionType

pub record Action (F : Type 0) : Type 0 where
  pub type : ActionType
  pub target_id : Ident
  pub value : F
  pub unit : String

pub record Outcome (F : Type 0) : Type 0 where
  pub baseline_metrics : Map F
  pub projected_metrics : Map F
  pub metric_deltas : Map F
  pub warnings : List String
  pub calculated : Bool

pub record Risk : Type 0 where
  pub key : String
  pub description : String
  pub severity : String

pub record Scenario (F : Type 0) : Type 0 where
  pub id : Ident
  pub goal_id : Ident
  pub business_id : Ident
  pub base_business_version : ℕ
  pub name : String
  pub objective : String
  pub proposed_actions : List (Action F)
  pub assumptions : List Assumption
  pub result : Outcome F
  pub risks : List Risk
  pub status : Status
  pub version : ℕ

-- `validStatus`
abbrev pub valid_status : Status → Bool
valid_status s = s == draft || s == simulated || s == compared || s == archived

abbrev is_nil {ℓ} : {A : Type ℓ} → List A → Bool
is_nil [] = true
is_nil (x ∷ xs) = false

module _ (fl : Float64) where
  open fl use {F, of_int, eq, lt, trunc}

  -- `a <= b`
  abbrev pub le : F → F → Bool
  le a b = lt a b || eq a b

  -- The `switch` of `Action.Validate` on the action's type.
  unfoldable pub validate_action_type : ActionType → Action F → Checked
  validate_action_type price_adjustment a = do
    validate_id a.target_id "action_target_id"
    reject
        (not (a.unit == "percent")
          || lt a.value (of_int (negsuc 89))
          || lt (of_int (pos 200)) a.value)
        (message "price adjustment must be between -90 and 200 percent")
  validate_action_type inventory_replenish a = do
    validate_id a.target_id "action_target_id"
    reject
        (not (a.unit == "units")
          || not (eq (trunc a.value) a.value)
          || le a.value (of_int (pos 0))
          || lt (of_int (pos 1000000000)) a.value)
        (message "inventory replenishment must be a positive bounded unit value")
  validate_action_type marketing_budget a =
      reject
        (not (a.unit == "cents")
          || not (eq (trunc a.value) a.value)
          || le a.value (of_int (pos 0))
          || lt (of_int (pos 1000000000000)) a.value)
        (message "marketing budget must be a positive bounded cents value")
  validate_action_type (other t) a = err (about "invalid scenario action type" t)

  unfoldable pub validate_action : Action F → Checked
  unfolding validate_action_type
  validate_action a = validate_action_type a.type a

  unfoldable pub validate_scenario : Scenario F → Checked
  validate_scenario s = do
    validate_ids
        (("scenario_id", s.id) ∷ ("goal_id", s.goal_id) ∷ ("business_id", s.business_id) ∷ [])
    reject
        (s.base_business_version == 0 || s.version == 0 || is_blank s.name || is_blank s.objective)
        (message "scenario name, objective and positive versions are required")
    reject (is_nil s.proposed_actions || not (valid_status s.status))
        (message "scenario requires actions and a valid status")
    each validate_action s.proposed_actions

-- The `switch` of `CanTransition` on the scenario's status.
abbrev can_transition_from : Status → Status → Bool
can_transition_from draft to = to == simulated || to == archived
can_transition_from simulated to = to == compared || to == archived
can_transition_from compared to = to == archived
can_transition_from archived to = false
can_transition_from (other _) to = false

unfoldable pub can_transition : {F : Type 0} → Scenario F → Status → Bool
can_transition s to = can_transition_from s.status to

unfoldable pub transition : {F : Type 0} → Scenario F → Status → Result (Scenario F)
unfolding can_transition
transition s to = do
  reject (not (can_transition s to)) (message "invalid scenario transition")
  ok (record s { status = to; version = add_u64 s.version 1 })
