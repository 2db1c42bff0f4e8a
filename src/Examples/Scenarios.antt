-- ===== src/Examples/Scenarios.antt =====
-- The theorems on scenarios, at concrete values.
use webmcp_backend.Common.{◌≡◌, ◌↔◌, ◌⊎◌, refl, Option, true, false, List, [], ◌∷◌, All, ok, err}
use webmcp_backend.Common.Text.{trim, trim_left, trim_right, is_space}
use webmcp_backend.Common.Int.{ℤ, pos, ◌+ℤ◌, ◌-ℤ◌, add64, sub64}
use webmcp_backend.Common.Maps.{lookup, insert}
use webmcp_backend.Domain.Core.{human, validate_id, validate_ids, validate_actor_type}
use webmcp_backend.Domain.Business.{
  validate_snapshot, validate_product, validate_customer, validate_order, validate_metric,
}
use webmcp_backend.Domain.Planning.{Goal, validate_goal, validate_constraint}
use webmcp_backend.Domain.Scenario.{
  Scenario, Status, validate_scenario, validate_action, validate_action_type,
}
use webmcp_backend.Domain.Scenario.Laws.{moved}
use webmcp_backend.Domain.Scenario.Simulation.{
  simulate, simulated_scenario, apply_actions, apply_action_type, baseline, total_orders,
  count_order, total_inventory, product_map,
}
use webmcp_backend.Domain.Scenario.Simulation.Budget.{
  Respects, marketing_total, reported_spend, simulate_budget,
}
use webmcp_backend.Domain.Scenario.Comparison.{
  Comparison, compare, compare_from, next_best, improves, better_margin, margin, recommend, item_of,
  has_high_risk, is_high,
}
use webmcp_backend.Domain.Scenario.Comparison.Recommendation.{
  HasHighRisk, IsRecommended, compare_recommends,
}
use webmcp_backend.Examples.Numbers.{whole_numbers}
use webmcp_backend.Examples.Data.{a_snapshot, a_goal, a_draft}

abbrev archived_draft : Scenario ℤ
archived_draft = moved a_draft Status.archived

-- The draft, simulated.
unfoldable pub a_simulation : Scenario ℤ
unfolding simulate
a_simulation = elim (simulate whole_numbers a_snapshot a_goal a_draft) [
  | ok s ↦ s
  | err e ↦ a_draft
]

it_simulates : simulate whole_numbers a_snapshot a_goal a_draft ≡ ok a_simulation
unfolding a_simulation simulate validate_snapshot validate_product validate_customer validate_order
    validate_metric validate_goal validate_constraint validate_actor_type validate_scenario
    validate_action validate_action_type validate_id validate_ids trim trim_left trim_right is_space
    apply_actions apply_action_type baseline total_orders count_order total_inventory product_map
    lookup insert add64 sub64 ◌+ℤ◌ ◌-ℤ◌
it_simulates = refl

-- A goal whose hard budget leaves room for the draft.
abbrev a_budget_goal : Goal
a_budget_goal = record a_goal {
  constraints =
      record {
        id = "constraint-2";
        goal_id = "goal-1";
        key = "Budget";
        value = "5000000000";
        hard = true;
        created_by = human;
      }
      ∷ a_goal.constraints;
}

unfoldable a_budgeted : Scenario ℤ
unfolding simulate
a_budgeted = elim (simulate whole_numbers a_snapshot a_budget_goal a_draft) [
  | ok s ↦ s
  | err e ↦ a_draft
]

it_is_budgeted : simulate whole_numbers a_snapshot a_budget_goal a_draft ≡ ok a_budgeted
unfolding a_budgeted simulate validate_snapshot validate_product validate_customer validate_order
    validate_metric validate_goal validate_constraint validate_actor_type validate_scenario
    validate_action validate_action_type validate_id validate_ids trim trim_left trim_right is_space
    apply_actions apply_action_type baseline total_orders count_order total_inventory product_map
    lookup insert add64 sub64 ◌+ℤ◌ ◌-ℤ◌
it_is_budgeted = refl

simulate_budget_example :
    (reported_spend whole_numbers a_budgeted
      ≡ marketing_total whole_numbers (pos 0) a_draft.proposed_actions)
    × ((has_high_risk a_budgeted.risks ≡ false)
        ↔ All
            (Respects whole_numbers (reported_spend whole_numbers a_budgeted))
            a_budget_goal.constraints)
simulate_budget_example =
    simulate_budget whole_numbers a_snapshot a_budget_goal a_draft a_budgeted it_is_budgeted

abbrev candidates : List (Scenario ℤ)
candidates = a_simulation ∷ record a_simulation { id = "scenario-2" } ∷ []

unfoldable a_comparison : Comparison ℤ
unfolding compare
a_comparison = elim (compare whole_numbers candidates) [
  | ok c ↦ c
  | err e ↦ recommend whole_numbers ([], Option.none)
]

it_compares : compare whole_numbers candidates ≡ ok a_comparison
unfolding a_comparison a_simulation simulate simulated_scenario compare compare_from next_best
    improves better_margin margin recommend item_of has_high_risk is_high validate_snapshot
    validate_id trim validate_product validate_order validate_goal validate_constraint
    validate_actor_type validate_scenario validate_ids validate_action apply_actions
    apply_action_type lookup product_map insert
it_compares = refl

compare_recommends_example :
    ((best : Scenario ℤ) × (a_comparison.recommendation_available ≡ true)
      × (a_comparison.recommended_scenario_id ≡ best.id)
      × IsRecommended whole_numbers candidates best)
    ⊎ ((a_comparison.recommendation_available ≡ false)
        × (a_comparison.recommended_scenario_id ≡ "")
        × All (HasHighRisk whole_numbers) candidates)
compare_recommends_example = compare_recommends whole_numbers candidates a_comparison it_compares
