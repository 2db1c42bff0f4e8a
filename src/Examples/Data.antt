-- ===== src/Examples/Data.antt =====
-- A business, a goal, a scenario, a proposal, a decision and a principal.
use webmcp_backend.Common.{true, false, [], ◌∷◌}
use webmcp_backend.Common.Int.{ℤ, pos}
use webmcp_backend.Domain.Core.{human}
use webmcp_backend.Domain.Business.{Snapshot}
use webmcp_backend.Domain.Planning
use webmcp_backend.Domain.Planning.{Goal}
use webmcp_backend.Domain.Proposal
use webmcp_backend.Domain.Proposal.{Version, Proposal}
use webmcp_backend.Domain.Approval
use webmcp_backend.Domain.Approval.{Decision}
use webmcp_backend.Domain.Scenario
use webmcp_backend.Domain.Scenario.{Scenario, Outcome}
use webmcp_backend.Domain.Commit
use webmcp_backend.Domain.Commit.{ValidationInput}
use webmcp_backend.Auth.Principal.{Principal, viewer}

abbrev pub a_snapshot : Snapshot ℤ
a_snapshot = record {
  business_id = "shop";
  version = 3;
  products =
      record {
        id = "tea";
        sku = "T1";
        name = "Tea";
        price_cents = pos 900;
        cost_cents = pos 400;
        inventory_units = pos 12;
        active = true;
        version = 1;
      }
      ∷ [];
  customers = [];
  orders =
      record {
        id = "order-1";
        customer_id = "ann";
        product_id = "tea";
        quantity = pos 2;
        revenue_cents = pos 1800;
        cost_cents = pos 800;
        occurred_at_unix = pos 1;
        version = 1;
      }
      ∷ [];
  metrics = [];
}

abbrev pub a_goal : Goal
a_goal = record {
  id = "goal-1";
  business_id = "shop";
  objective = "sell more tea";
  time_horizon_days = pos 30;
  preference = Planning.Preference.balanced;
  constraints =
      record {
        id = "constraint-1";
        goal_id = "goal-1";
        key = "inventory";
        value = "keep five";
        hard = true;
        created_by = human;
      }
      ∷ [];
  status = Planning.GoalStatus.active;
  version = 1;
}

abbrev pub no_outcome : Outcome ℤ
no_outcome = record {
  baseline_metrics = [];
  projected_metrics = [];
  metric_deltas = [];
  warnings = [];
  calculated = false;
}

abbrev pub a_draft : Scenario ℤ
a_draft = record {
  id = "scenario-1";
  goal_id = "goal-1";
  business_id = "shop";
  base_business_version = 3;
  name = "advertise";
  objective = "more visitors";
  proposed_actions =
      record {
        type = Scenario.ActionType.marketing_budget;
        target_id = "";
        value = pos 500;
        unit = "cents";
      }
      ∷ record {
        type = Scenario.ActionType.inventory_replenish;
        target_id = "tea";
        value = pos 10;
        unit = "units";
      }
      ∷ [];
  assumptions = [];
  result = no_outcome;
  risks = [];
  status = Scenario.Status.draft;
  version = 1;
}

abbrev pub a_version : Version
a_version = record {
  id = "version-1";
  proposal_id = "proposal-1";
  number = pos 1;
  scenario_id = "scenario-1";
  base_business_version = 3;
  summary = "advertise the tea";
  changes = [];
  status = Proposal.Status.draft;
}

abbrev pub a_proposal : Proposal
a_proposal = record {
  id = "proposal-1";
  business_id = "shop";
  goal_id = "goal-1";
  current = a_version;
  version = 1;
}

abbrev pub a_decision : Decision
a_decision = record {
  id = "approval-1";
  proposal_id = "proposal-1";
  proposal_version_id = "version-1";
  business_id = "shop";
  decided_by = "ann";
  status = Approval.Status.approved;
  reason = "looks right";
  expires_at = 0;
}

abbrev pub a_guest : Principal
a_guest = record {
  user_id = "guest-1";
  organization_id = "org";
  role = viewer;
  guest = true;
  guest_business_id = "shop";
  guest_goal_id = "goal-1";
}

abbrev pub a_gate_input : ValidationInput ℤ
a_gate_input = record {
  now = 7;
  business = a_snapshot;
  proposal = record a_proposal { current = record a_version { status = Proposal.Status.approved } };
  approval = a_decision;
  operation = record {
    id = "operation-1";
    idempotency_key = "key-1";
    proposal_id = "proposal-1";
    proposal_version_id = "version-1";
    business_id = "shop";
    expected_business_version = 3;
    status = Commit.Status.requested;
  };
  authorized = true;
  existing_operation_id = "";
}
