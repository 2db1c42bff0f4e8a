-- ===== src/Workflow/Scenarios.antt =====
-- internal/application/scenarioworkflow/service.go: scenarios are created, simulated against the
-- current snapshot, and compared.
pub mod Simulated
pub mod Compared
use webmcp_backend.Common.{
  ℕ, String, Bool, true, not, ◌&&◌, ◌||◌, Option, List, [], ◌∷◌, ◌==◌, nat_eq, string_eq, ltb, any,
  length, message, Error, Result, ok, err, Checked, each,
}
use webmcp_backend.Common.{reject as reject_if, ◌>>◌ as and_then}
use webmcp_backend.Common.Text.{trim, is_blank}
use webmcp_backend.Common.Float.{Float64}
use webmcp_backend.Common.Io.{Io, ◌>>=◌, ◌>>◌, lift, reject}
use webmcp_backend.Domain.Core.{Ident, validate_id, validate_ids}
use webmcp_backend.Domain.Business.{Snapshot}
use webmcp_backend.Domain.Planning
use webmcp_backend.Domain.Planning.{Goal, goal_status_eq}
use webmcp_backend.Domain.Scenario
use webmcp_backend.Domain.Scenario.{Scenario, Action, validate_scenario}
use webmcp_backend.Domain.Scenario.Simulation.{simulate}
use webmcp_backend.Domain.Scenario.Comparison.{Comparison, compare}
use webmcp_backend.Workflow.Ports.{
  BusinessSnapshotReader, GoalReader, ScenarioRepository, Random, fresh_id, required,
}

abbrev scenario_not_found : Error
scenario_not_found = message "scenario not found"

abbrev pub scenario_context : Error
scenario_context = message "scenario context mismatch"

pub record CreateInput (F : Type 0) : Type 0 where
  pub organization_id : Ident
  pub actor_id : Ident
  pub business_id : Ident
  pub goal_id : Ident
  pub name : String
  pub objective : String
  pub actions : List (Action F)
  pub request_id : String

pub record SimulateInput : Type 0 where
  pub organization_id : Ident
  pub actor_id : Ident
  pub business_id : Ident
  pub scenario_id : Ident
  pub request_id : String

pub record CompareInput : Type 0 where
  pub organization_id : Ident
  pub business_id : Ident
  pub scenario_ids : List Ident

-- The loop over the identifiers of `CompareScenarios`.
unfoldable pub check_scenario_ids : List Ident → List Ident → Checked
check_scenario_ids seen [] = ok tt
check_scenario_ids seen (id ∷ ids) = and_then (validate_id id "scenario_id") (
    and_then (reject_if (any (λ s. s == id) seen) (message "scenario IDs must be unique"))
      (check_scenario_ids (id ∷ seen) ids))

-- The loop over the scenarios that were read; the first one's version is the reference.
unfoldable pub check_context : {F : Type 0} → Ident → List (Scenario F) → Checked
check_context business_id [] = ok tt
check_context business_id (c ∷ cs) =
    each
      (λ s.
        reject_if
          (not (s.business_id == business_id)
            || not (s.base_business_version == c.base_business_version))
          scenario_context)
      (c ∷ cs)

module _ (fl : Float64) where
  open fl use {F}

  -- The scenario that `CreateScenario` builds; it is not calculated, and has no metrics.
  unfoldable pub draft_of : CreateInput F → ℕ → Ident → Scenario F
  draft_of i version id = record {
    id = id;
    goal_id = i.goal_id;
    business_id = i.business_id;
    base_business_version = version;
    name = trim i.name;
    objective = trim i.objective;
    proposed_actions = i.actions;
    assumptions = [];
    result = record {
      baseline_metrics = [];
      projected_metrics = [];
      metric_deltas = [];
      warnings = [];
      calculated = Bool.false;
    };
    risks = [];
    status = Scenario.Status.draft;
    version = 1;
  }

  -- `SimulateScenario` with its repositories.
  unfoldable pub simulate_with :
      {W : Type 0}
      → BusinessSnapshotReader F W
      → GoalReader W
      → ScenarioRepository F W
      → SimulateInput
      → Io W (Scenario F)
  simulate_with snapshots goals scenarios i = do
    candidate ← scenarios.get_scenario i.organization_id i.business_id i.scenario_id
    goal ← goals.get_goal i.organization_id i.business_id candidate.goal_id
    snapshot ← snapshots.get_snapshot i.organization_id i.business_id
    calculated ← lift (simulate fl snapshot goal candidate)
    scenarios.update_simulation i.organization_id calculated candidate.version i.actor_id
        i.request_id
    lift (ok calculated)

  module _ {W : Type 0} (random : Random W) (snapshots : Option (BusinessSnapshotReader F W))
      (goals : Option (GoalReader W)) (scenarios : Option (ScenarioRepository F W)) where
    -- `CreateScenario`
    unfoldable pub create_scenario : CreateInput F → Io W (Scenario F)
    create_scenario i = do
      lift (
          validate_ids (
            ("organization_id", i.organization_id)
            ∷ ("actor_id", i.actor_id)
            ∷ ("business_id", i.business_id)
            ∷ ("goal_id", i.goal_id)
            ∷ []))
      reject (is_blank i.request_id) (message "request_id is required")
      snapshot_reader ← required "scenario workflow dependencies are unavailable" snapshots
      goal_reader ← required "scenario workflow dependencies are unavailable" goals
      repository ← required "scenario workflow dependencies are unavailable" scenarios
      snapshot ← snapshot_reader.get_snapshot i.organization_id i.business_id
      goal ← goal_reader.get_goal i.organization_id i.business_id i.goal_id
      reject
          (not (goal.business_id == i.business_id)
            || (not (goal.status == Planning.GoalStatus.draft)
                && not (goal.status == Planning.GoalStatus.active)))
          scenario_context
      id ← fresh_id random "scenario"
      lift (validate_scenario fl (draft_of i snapshot.version id))
      repository.create_scenario i.organization_id i.actor_id (draft_of i snapshot.version id)
          i.request_id
      lift (ok (draft_of i snapshot.version id))

    -- `SimulateScenario`
    unfoldable pub simulate_scenario : SimulateInput → Io W (Scenario F)
    simulate_scenario i = do
      lift (
          validate_ids (
            ("organization_id", i.organization_id)
            ∷ ("actor_id", i.actor_id)
            ∷ ("business_id", i.business_id)
            ∷ ("scenario_id", i.scenario_id)
            ∷ []))
      reject (is_blank i.request_id) (message "request_id is required")
      snapshot_reader ← required "scenario workflow dependencies are unavailable" snapshots
      goal_reader ← required "scenario workflow dependencies are unavailable" goals
      repository ← required "scenario workflow dependencies are unavailable" scenarios
      simulate_with snapshot_reader goal_reader repository i

  -- `CompareScenarios`
  unfoldable pub compare_scenarios :
      {W : Type 0} → Option (ScenarioRepository F W) → CompareInput → Io W (Comparison F)
  compare_scenarios scenarios i = do
    lift (
        validate_ids (("organization_id", i.organization_id) ∷ ("business_id", i.business_id) ∷ []))
    reject (ltb (length i.scenario_ids) 2 || ltb 8 (length i.scenario_ids))
        (message "between two and eight scenario IDs are required")
    lift (check_scenario_ids [] i.scenario_ids)
    repository ← required "scenario workflow dependencies are unavailable" scenarios
    candidates ← repository.list_scenarios i.organization_id i.business_id i.scenario_ids
    reject (not (length candidates == length i.scenario_ids)) scenario_not_found
    lift (check_context i.business_id candidates)
    lift (compare fl candidates)
