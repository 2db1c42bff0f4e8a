-- ===== src/Examples/Workflows.antt =====
-- The theorems on the proposal and scenario services, at concrete inputs.
use webmcp_backend.Common.{ℕ, ◌≡◌, refl, true, Option, some, [], ◌∷◌, ok, err}
use webmcp_backend.Common.Text.{trim, trim_left, trim_right, is_space}
use webmcp_backend.Common.Int.{ℤ}
use webmcp_backend.Common.Io.{◌>>=◌, lift, reject}
use webmcp_backend.Domain.Core.{new_id, validate_id, validate_ids, validate_actor_type}
use webmcp_backend.Domain.Planning.{validate_constraint}
use webmcp_backend.Domain.Proposal.{validate_proposal, validate_version}
use webmcp_backend.Domain.Scenario.{Scenario}
use webmcp_backend.Domain.Scenario.{Status as ScenarioStatus}
use webmcp_backend.Domain.Scenario.Simulation.{simulate}
use webmcp_backend.Domain.Scenario.Comparison.{Comparison, recommend}
use webmcp_backend.Workflow.Ports.{
  BusinessSnapshotReader, GoalReader, ScenarioRepository, fresh_id, required,
}
use webmcp_backend.Workflow.Proposals
use webmcp_backend.Workflow.Proposals.{
  draft_of, propose, create_proposal, revised, revise_proposal, submitted, request_human_review,
}
use webmcp_backend.Workflow.Proposals.Created.{Created, create_proposal-Created}
use webmcp_backend.Workflow.Scenarios
use webmcp_backend.Workflow.Scenarios.{
  simulate_with, simulate_scenario, check_scenario_ids, check_context, compare_scenarios,
}
use webmcp_backend.Workflow.Scenarios.Simulated.{Simulated, simulate_scenario-Simulated}
use webmcp_backend.Examples.Numbers.{whole_numbers}
use webmcp_backend.Examples.Data.{a_draft}
use webmcp_backend.Examples.Scenarios.{a_simulation}
use webmcp_backend.Domain.Business.{validate_snapshot, validate_product, validate_order}
use webmcp_backend.Domain.Planning.{validate_goal}
use webmcp_backend.Domain.Scenario.{validate_scenario, validate_action}
use webmcp_backend.Domain.Scenario.Simulation.{apply_actions, apply_action_type, product_map}
use webmcp_backend.Common.Maps.{lookup, insert}
use webmcp_backend.Examples.Ports.{always, the_snapshots, the_goals, the_scenarios, the_proposals}

abbrev review_input : Proposals.ReviewInput
review_input = record {
  organization_id = "org";
  actor_id = "ann";
  business_id = "shop";
  proposal_id = "proposal-1";
  request_id = "request-1";
}

abbrev revise_input : Proposals.ReviseInput
revise_input = record {
  organization_id = "org";
  actor_id = "ann";
  business_id = "shop";
  proposal_id = "proposal-1";
  feedback = "cheaper";
  request_id = "request-1";
}

abbrev create_input : Proposals.CreateInput
create_input = record {
  organization_id = "org";
  actor_id = "ann";
  business_id = "shop";
  goal_id = "goal-1";
  scenario_id = "scenario-1";
  summary = "advertise the tea";
  request_id = "request-1";
}

abbrev a_calculated : Scenario ℤ
a_calculated = record a_draft {
  result = record {
    baseline_metrics = [];
    projected_metrics = [];
    metric_deltas = [];
    warnings = [];
    calculated = true;
  };
  status = ScenarioStatus.simulated;
  version = 2;
}

create_proposal-Created_example :
    Created whole_numbers always
      (the_scenarios a_calculated)
      the_proposals
      create_input
      (draft_of whole_numbers create_input a_calculated "proposal-00" "proposal-version-00")
      0
      1
unfolding create_proposal propose draft_of validate_ids validate_id validate_proposal
    validate_version trim trim_left trim_right is_space required fresh_id new_id ◌>>=◌ lift reject
create_proposal-Created_example =
    create_proposal-Created whole_numbers always (the_scenarios a_calculated) the_proposals
      create_input
      (draft_of whole_numbers create_input a_calculated "proposal-00" "proposal-version-00") 0 1
      refl

abbrev simulate_input : Scenarios.SimulateInput
simulate_input = record {
  organization_id = "org";
  actor_id = "ann";
  business_id = "shop";
  scenario_id = "scenario-1";
  request_id = "request-1";
}

simulate_scenario-Simulated_example :
    (s : BusinessSnapshotReader ℤ ℕ) × (g : GoalReader ℕ) × (r : ScenarioRepository ℤ ℕ)
    × (the_snapshots ≡ some s)
    × (the_goals ≡ some g)
    × (the_scenarios a_draft ≡ some r)
    × Simulated whole_numbers s g r simulate_input a_simulation 0 1
unfolding simulate_scenario simulate_with validate_ids validate_id trim trim_left trim_right
    is_space required ◌>>=◌ lift reject a_simulation simulate validate_snapshot validate_product
    validate_order validate_goal validate_constraint validate_actor_type validate_scenario
    validate_action apply_actions apply_action_type lookup product_map insert
simulate_scenario-Simulated_example =
    simulate_scenario-Simulated whole_numbers always the_snapshots the_goals (the_scenarios a_draft)
      simulate_input a_simulation 0 1 refl

abbrev compare_input : Scenarios.CompareInput
compare_input = record {
  organization_id = "org";
  business_id = "shop";
  scenario_ids = "scenario-1" ∷ "scenario-2" ∷ [];
}

unfoldable the_comparison : Comparison ℤ
unfolding compare_scenarios
the_comparison =
    elim ((compare_scenarios whole_numbers (the_scenarios a_calculated) compare_input 0).0) [
      | ok c ↦ c
      | err e ↦ recommend whole_numbers ([], Option.none)
    ]
