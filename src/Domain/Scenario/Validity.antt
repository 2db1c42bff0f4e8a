-- ===== src/Domain/Scenario/Validity.antt =====
-- The validation of a scenario decides a declarative description of a well-formed one.
use webmcp_backend.Common.{
  ◌↔◌, ◌≡◌, ◌≢◌, ◌<◌, true, false, String, List, [], ◌∷◌, arith, eq_iff, Passes, All, each-Passes,
}
use webmcp_backend.Common.Int.{pos, negsuc}
use webmcp_backend.Common.Text.{NotBlank}
use webmcp_backend.Common.Float.{Float64}
use webmcp_backend.Domain.Core.{Ident, IsIdent, validate_id-Passes, validate_ids-Passes}
use webmcp_backend.Domain.Scenario.{
  Status, ActionType, Action, price_adjustment, inventory_replenish, marketing_budget, Scenario, le,
  validate_action_type, validate_action, validate_scenario,
}

abbrev pub IsStatus : Status → Type 0
IsStatus (Status.other _) = ⊥
IsStatus _ = Unit

module _ (fl : Float64) where
  open fl use {F, of_int, eq, lt, trunc}

  -- A whole number of `unit`s above 0 and at most `max`.
  record IsAmount (unit : String) (max : F) (a : Action F) : Type 0 where
    pub unit_is : a.unit ≡ unit
    pub whole : eq (trunc a.value) a.value ≡ true
    pub positive : le fl a.value (of_int (pos 0)) ≡ false
    pub bounded : lt max a.value ≡ false

  -- A change of the price of a target, between -90 and 200 percent.
  record IsPriceChange (a : Action F) : Type 0 where
    pub target : IsIdent a.target_id
    pub unit_is : a.unit ≡ "percent"
    pub at_least : lt a.value (of_int (negsuc 89)) ≡ false
    pub at_most : lt (of_int (pos 200)) a.value ≡ false

  record IsReplenishment (a : Action F) : Type 0 where
    pub target : IsIdent a.target_id
    pub amount : IsAmount "units" (of_int (pos 1000000000)) a

  abbrev IsActionOf : ActionType → Action F → Type 0
  IsActionOf price_adjustment a = IsPriceChange a
  IsActionOf inventory_replenish a = IsReplenishment a
  IsActionOf marketing_budget a = IsAmount "cents" (of_int (pos 1000000000000)) a
  IsActionOf (ActionType.other _) a = ⊥

  abbrev IsAction : Action F → Type 0
  IsAction a = IsActionOf a.type a

  validate_action_type-Passes :
      (t : ActionType) (a : Action F) → Passes (validate_action_type fl t a) ↔ IsActionOf t a
  unfolding validate_action_type
  validate_action_type-Passes price_adjustment a = (
    λ h. ground (arith, eq_iff a.unit "percent", validate_id-Passes a.target_id "action_target_id"),
    λ v. ground (
      arith,
      (eq_iff a.unit "percent").1 v.unit_is,
      (validate_id-Passes a.target_id "action_target_id").1 v.target,
    ),
  )
  validate_action_type-Passes inventory_replenish a = (
    λ h. ground (arith, eq_iff a.unit "units", validate_id-Passes a.target_id "action_target_id"),
    λ v. ground (
      arith,
      (eq_iff a.unit "units").1 v.amount.unit_is,
      (validate_id-Passes a.target_id "action_target_id").1 v.target,
    ),
  )
  validate_action_type-Passes marketing_budget a = (
    λ h. ground (arith, eq_iff a.unit "cents"),
    λ v. ground (arith, (eq_iff a.unit "cents").1 v.unit_is),
  )
  validate_action_type-Passes (ActionType.other t) a = (λ h. ground arith, λ v. absurd v)

  validate_action-Passes : (a : Action F) → Passes (validate_action fl a) ↔ IsAction a
  unfolding validate_action
  validate_action-Passes a = validate_action_type-Passes a.type a

  record IsScenario (s : Scenario F) : Type 0 where
    pub ident : IsIdent s.id
    pub goal : IsIdent s.goal_id
    pub business : IsIdent s.business_id
    pub based : 0 < s.base_business_version
    pub versioned : 0 < s.version
    pub name : NotBlank s.name
    pub objective : NotBlank s.objective
    pub acts : s.proposed_actions ≢ []
    pub status : IsStatus s.status
    pub actions : All IsAction s.proposed_actions

  abbrev scenario_ids : Scenario F → List (String × Ident)
  scenario_ids s =
      ("scenario_id", s.id) ∷ ("goal_id", s.goal_id) ∷ ("business_id", s.business_id) ∷ []

  -- A scenario passes validation exactly if it is well formed: it has at least one action, and each
  -- of its actions is of one of the three types, in the unit of that type and within its bounds.
  validate_scenario-Passes : (s : Scenario F) → Passes (validate_scenario fl s) ↔ IsScenario s
  unfolding validate_scenario
  validate_scenario-Passes s = (
    λ h. ground (
      arith,
      validate_ids-Passes (scenario_ids s),
      each-Passes IsAction (validate_action fl) validate_action-Passes s.proposed_actions,
    ),
    λ v. ground (
      arith,
      (validate_ids-Passes (scenario_ids s)).1 (v.ident, (v.goal, (v.business, tt))),
      (each-Passes IsAction (validate_action fl) validate_action-Passes s.proposed_actions).1
          v.actions,
      v.acts,
    ),
  )
