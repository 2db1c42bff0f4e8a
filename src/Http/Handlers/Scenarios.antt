-- ===== src/Http/Handlers/Scenarios.antt =====
-- internal/httpapi/api_handlers.go: the handlers of the analysis, of constraints and of scenarios.
use webmcp_backend.Common.{String, false, not, string_eq, map, Error}
use webmcp_backend.Common.Text.{trim}
use webmcp_backend.Domain.Core.{Ident}
use webmcp_backend.Domain.Approval.{status_eq}
use webmcp_backend.Auth.Principal.{can_operate}
use webmcp_backend.Workflow.Scenarios
use webmcp_backend.Workflow.Scenarios.{SimulateInput, CompareInput}
use webmcp_backend.Workflow.Analysis
use webmcp_backend.Workflow.Planning.{ConstraintInput}
use webmcp_backend.Http.Replies.{
  reply, scope_forbidden, scenario_error, analysis_error, constraint_error,
}
use webmcp_backend.Http.Gates.{Gate}
use webmcp_backend.Http.Gates.Scope.{may_not_operate}
use webmcp_backend.Http.Handlers.Requests.{
  AnalyzeBusinessRequest, ConstraintRequest, CreateScenarioRequest, CompareScenariosRequest,
  outside_business, outside_goal,
}

module _ (text : Error → String) (request_id : String) where
  -- `analyzeBusiness`
  unfoldable analyze_business : Gate AnalyzeBusinessRequest Analysis.Input
  analyze_business = record {
    forbidden = λ p. false;
    forbidden_reply = scope_forbidden "";
    unavailable_reply = reply 503 "analysis_unavailable" "analysis service is unavailable";
    body_code = "invalid_analysis_request";
    outside = λ p r. outside_goal p r.business_id r.goal_id;
    outside_reply = scope_forbidden "guest demo is limited to its configured business and goal";
    input = λ p r. record {
      organization_id = p.organization_id;
      actor_id = p.user_id;
      business_id = trim r.business_id;
      goal_id = trim r.goal_id;
      focus = r.focus;
    };
    on_error = analysis_error text;
    status = 200;
  }

  -- `updateConstraint`, of the goal in its path
  unfoldable update_constraint : Ident → Gate ConstraintRequest ConstraintInput
  update_constraint goal_id = record {
    forbidden = λ p. not (can_operate p);
    forbidden_reply = reply 403 "constraint_forbidden" "the current role cannot update constraints";
    unavailable_reply = reply 503 "planning_unavailable" "planning service is unavailable";
    body_code = "invalid_constraint_request";
    outside = λ p r. false;
    outside_reply = scope_forbidden "";
    input = λ p r. record {
      organization_id = p.organization_id;
      actor_id = p.user_id;
      goal_id = goal_id;
      key = r.key;
      value = r.value;
      hard = r.hard;
      request_id = request_id;
    };
    on_error = constraint_error text;
    status = 200;
  }

  -- `createScenario`
  unfoldable pub create_scenario :
      {F : Type 0} → Gate (CreateScenarioRequest F) (Scenarios.CreateInput F)
  create_scenario = record {
    forbidden = may_not_operate;
    forbidden_reply = reply 403 "scenario_forbidden" "the current role cannot create a scenario";
    unavailable_reply = reply 503 "scenario_unavailable" "scenario service is unavailable";
    body_code = "invalid_scenario_request";
    outside = λ p r. outside_goal p r.business_id r.goal_id;
    outside_reply = scope_forbidden "guest demo is limited to its configured business and goal";
    input = λ p r. record {
      organization_id = p.organization_id;
      actor_id = p.user_id;
      business_id = trim r.business_id;
      goal_id = trim r.goal_id;
      name = r.name;
      objective = r.objective;
      actions = r.proposed_actions;
      request_id = request_id;
    };
    on_error = scenario_error text;
    status = 201;
  }

  -- `simulateScenario`, of the scenario in its path; the body is the business.
  unfoldable pub simulate_scenario : Ident → Gate String SimulateInput
  simulate_scenario scenario_id = record {
    forbidden = may_not_operate;
    forbidden_reply = reply 403 "scenario_forbidden" "the current role cannot simulate a scenario";
    unavailable_reply = reply 503 "scenario_unavailable" "scenario service is unavailable";
    body_code = "invalid_simulation_request";
    outside = λ p business_id. outside_business p business_id;
    outside_reply = scope_forbidden "guest demo is limited to its configured business";
    input = λ p business_id. record {
      organization_id = p.organization_id;
      actor_id = p.user_id;
      business_id = trim business_id;
      scenario_id = scenario_id;
      request_id = request_id;
    };
    on_error = scenario_error text;
    status = 200;
  }

  -- `compareScenarios`
  unfoldable pub compare_scenarios : Gate CompareScenariosRequest CompareInput
  compare_scenarios = record {
    forbidden = λ p. false;
    forbidden_reply = scope_forbidden "";
    unavailable_reply = reply 503 "scenario_unavailable" "scenario service is unavailable";
    body_code = "invalid_comparison_request";
    outside = λ p r. outside_business p r.business_id;
    outside_reply = scope_forbidden "guest demo is limited to its configured business";
    input = λ p r. record {
      organization_id = p.organization_id;
      business_id = trim r.business_id;
      scenario_ids = map trim r.scenario_ids;
    };
    on_error = scenario_error text;
    status = 200;
  }
