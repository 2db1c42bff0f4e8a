-- ===== src/Workflow/Scenarios/Simulated.antt =====
-- What the scenario service has read and stored where it returns a simulation.
use webmcp_backend.Common.{◌≡◌, ◌∙◌, sym, Option, some, ok-injective}
use mathlib.Core.Path.{subst}
use webmcp_backend.Common.Float.{Float64}
use webmcp_backend.Common.Io.Laws.{Returns, bind-Returns, lift-Returns, reject-Returns}
use webmcp_backend.Domain.Business.{Snapshot}
use webmcp_backend.Domain.Planning.{Goal}
use webmcp_backend.Domain.Scenario.{Scenario}
use webmcp_backend.Domain.Scenario.Simulation.Inversion.{IsSimulation, simulate-IsSimulation}
use webmcp_backend.Workflow.Ports.{BusinessSnapshotReader, GoalReader, ScenarioRepository, Random}
use webmcp_backend.Workflow.Ports.Laws.{required-Returns}
use webmcp_backend.Workflow.Scenarios.{SimulateInput, simulate_with, simulate_scenario}

module _ (fl : Float64) {W : Type 0} where
  open fl use {F}

  -- The scenario, its goal and the snapshot are read one after the other, and the result is
  -- stored against the version that the scenario had.
  pub record Simulated (snapshots : BusinessSnapshotReader F W) (goals : GoalReader W)
      (scenarios : ScenarioRepository F W) (i : SimulateInput) (next : Scenario F) (w w' : W)
      : Type 0 where
    pub candidate : Scenario F
    pub goal : Goal
    pub snapshot : Snapshot F
    pub w1 : W
    pub w2 : W
    pub w3 : W
    pub read_scenario :
        Returns
          (scenarios.get_scenario i.organization_id i.business_id i.scenario_id)
          w
          candidate
          w1
    pub read_goal :
        Returns (goals.get_goal i.organization_id i.business_id candidate.goal_id) w1 goal w2
    pub read_snapshot :
        Returns (snapshots.get_snapshot i.organization_id i.business_id) w2 snapshot w3
    pub simulation : IsSimulation fl snapshot goal candidate next
    pub written :
        Returns
          (scenarios.update_simulation i.organization_id next candidate.version i.actor_id
            i.request_id)
          w3
          tt
          w'

  simulate_with-Simulated :
      (snapshots : BusinessSnapshotReader F W) (goals : GoalReader W)
      (scenarios : ScenarioRepository F W) (i : SimulateInput) (next : Scenario F) (w w' : W)
      → Returns (simulate_with fl snapshots goals scenarios i) w next w'
      → Simulated snapshots goals scenarios i next w w'
  unfolding simulate_with
  simulate_with-Simulated snapshots goals scenarios i next w w' h =
      let (c, w1, h1, k1) = bind-Returns _ _ w w' next h in
      let (g, w2, h2, k2) = bind-Returns _ _ w1 w' next k1 in
      let (s, w3, h3, k3) = bind-Returns _ _ w2 w' next k2 in
      let (n, w4, h4, k4) = bind-Returns _ _ w3 w' next k3 in
      let (_, w5, h5, k5) = bind-Returns _ _ w4 w' next k4 in
      let (made, e4) = lift-Returns _ w3 w4 n h4 in
      let (done, e5) = lift-Returns _ w5 w' next k5 in
      let found : Simulated snapshots goals scenarios i n w w5 = record {
        candidate = c;
        goal = g;
        snapshot = s;
        w1 = w1;
        w2 = w2;
        w3 = w3;
        read_scenario = h1;
        read_goal = h2;
        read_snapshot = h3;
        simulation = simulate-IsSimulation fl s g c made;
        written =
            subst
              (λ v.
                Returns
                  (scenarios.update_simulation i.organization_id n c.version i.actor_id
                    i.request_id)
                  v tt w5)
              e4 h5;
      } in
      subst (λ x. Simulated snapshots goals scenarios i x w w') (ok-injective done)
        (subst (λ v. Simulated snapshots goals scenarios i n w v) (sym e5) found)

  module _ (random : Random W) (snapshots : Option (BusinessSnapshotReader F W))
      (goals : Option (GoalReader W)) (scenarios : Option (ScenarioRepository F W)) where
    -- A simulation that the service returns is the simulation of a valid draft against a valid
    -- goal and a valid snapshot of the same business version, which were read from the
    -- repositories, and it is stored against the version that the draft had.
    pub simulate_scenario-Simulated :
        (i : SimulateInput) (next : Scenario F) (w w' : W)
        → Returns (simulate_scenario fl random snapshots goals scenarios i) w next w'
        → (s : BusinessSnapshotReader F W) × (g : GoalReader W) × (r : ScenarioRepository F W)
          × (snapshots ≡ some s)
          × (goals ≡ some g)
          × (scenarios ≡ some r)
          × Simulated s g r i next w w'
    unfolding simulate_scenario
    simulate_scenario-Simulated i next w w' h =
        let (_, w1, h1, k1) = bind-Returns _ _ w w' next h in
        let (_, w2, h2, k2) = bind-Returns _ _ w1 w' next k1 in
        let (s, w3, h3, k3) = bind-Returns _ _ w2 w' next k2 in
        let (g, w4, h4, k4) = bind-Returns _ _ w3 w' next k3 in
        let (r, w5, h5, k5) = bind-Returns _ _ w4 w' next k4 in
        let (_, e1) = lift-Returns _ w w1 _ h1 in
        let (_, e2) = reject-Returns _ _ w1 w2 _ h2 in
        let (wired_s, e3) = required-Returns _ snapshots w2 w3 s h3 in
        let (wired_g, e4) = required-Returns _ goals w3 w4 g h4 in
        let (wired_r, e5) = required-Returns _ scenarios w4 w5 r h5 in
        (
          s,
          g,
          r,
          wired_s,
          wired_g,
          wired_r,
          subst (λ v. Simulated s g r i next v w') (e5 ∙ e4 ∙ e3 ∙ e2 ∙ e1)
              (simulate_with-Simulated s g r i next w5 w' k5),
        )
