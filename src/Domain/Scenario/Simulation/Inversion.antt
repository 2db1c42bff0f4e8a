-- ===== src/Domain/Scenario/Simulation/Inversion.antt =====
-- What a successful simulation has checked, and what it returns.
use webmcp_backend.Common.{◌≡◌, inl, inr, Result, ok, arith, Passes, Result-cases, eq_iff}
use webmcp_backend.Common.Float.{Float64}
use webmcp_backend.Domain.Business.{Snapshot, validate_snapshot}
use webmcp_backend.Domain.Planning.{Goal, validate_goal}
use webmcp_backend.Domain.Scenario.{Scenario, draft, validate_scenario, status_beq_iff}
use webmcp_backend.Domain.Scenario.Simulation.{
  Projection, Totals, product_map, total_orders, apply_actions, baseline, simulated_scenario,
  simulate,
}

module _ (fl : Float64) where
  open fl use {F}

  pub record IsSimulation (snapshot : Snapshot F) (goal : Goal) (candidate next : Scenario F)
      : Type 0 where
    pub snapshot_valid : Passes (validate_snapshot snapshot)
    pub goal_valid : Passes (validate_goal goal)
    pub candidate_valid : Passes (validate_scenario fl candidate)
    pub drafted : candidate.status ≡ draft
    pub same_business : candidate.business_id ≡ snapshot.business_id
    pub same_goal : candidate.goal_id ≡ goal.id
    pub same_version : candidate.base_business_version ≡ snapshot.version
    pub projection : Projection fl
    pub applied :
        apply_actions fl
          (product_map snapshot.products)
          (Totals.by_product (total_orders fl snapshot.orders))
          candidate.proposed_actions
          (baseline fl snapshot)
        ≡ ok projection
    pub returned : next ≡ simulated_scenario fl goal candidate (baseline fl snapshot) projection

  pub simulate-IsSimulation :
      (snapshot : Snapshot F) (goal : Goal) (candidate : Scenario F) {next : Scenario F}
      → simulate fl snapshot goal candidate ≡ ok next
      → IsSimulation snapshot goal candidate next
  unfolding simulate
  simulate-IsSimulation snapshot goal candidate {next} h = elim (Result-cases run) [
    | inl (p, e) ↦ record {
      snapshot_valid = ground arith;
      goal_valid = ground arith;
      candidate_valid = ground arith;
      drafted = ground (arith, status_beq_iff candidate.status draft);
      same_business = ground (arith, eq_iff candidate.business_id snapshot.business_id);
      same_goal = ground (arith, eq_iff candidate.goal_id goal.id);
      same_version = ground arith;
      projection = p;
      applied = e;
      returned = ground (arith, e);
    }
    | inr (e, f) ↦ absurd (ground (arith, f))
  ]
    where
      run : Result (Projection fl)
      run =
          apply_actions fl (product_map snapshot.products)
            (Totals.by_product (total_orders fl snapshot.orders)) candidate.proposed_actions
            (baseline fl snapshot)
