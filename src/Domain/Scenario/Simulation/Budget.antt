-- ===== src/Domain/Scenario/Simulation/Budget.antt =====
-- The hard budget constraints of the goal against the marketing spend of a simulation.
use webmcp_backend.Common.{
  ◌≡◌, refl, ◌↔◌, ◌∙◌, sym, ap, String, true, false, ◌||◌, some, List, [], ◌∷◌, ◌++◌, map, arith,
  ok, All, Bool-cases, Option-cases, or-eq-false, inl, inr, >>=-eq-ok,
}
use webmcp_backend.Common.Int.{pos}
use webmcp_backend.Common.Float.{Float64}
use webmcp_backend.Common.Maps.{Map, lookup, lookup_or}
use webmcp_backend.Domain.Business.{Product, Snapshot}
use webmcp_backend.Domain.Planning.{Goal, Constraint}
use webmcp_backend.Domain.Scenario.{Action, ActionType, marketing_budget, Scenario, Risk}
use webmcp_backend.Domain.Scenario.Comparison.{has_high_risk}
use webmcp_backend.Domain.Scenario.Simulation.{
  Projection, is_hard_budget, budget_limit, constraint_findings, hard_budget_findings,
  apply_actions, apply_action_type, baseline, simulated_scenario, simulate,
}
use webmcp_backend.Domain.Scenario.Simulation.Inversion.{simulate-IsSimulation}

module _ (fl : Float64) where
  open fl use {F, of_int, add, lt}

  -- A hard budget constraint has a usable limit, and the spend does not exceed it.
  abbrev pub Respects : F → Constraint → Type 0
  Respects spend c =
      is_hard_budget c ≡ true
      → (limit : F) × (budget_limit fl c.value ≡ some limit) × (lt limit spend ≡ false)

  high_of_constraint :
      (spend : F) (c : Constraint)
      → (has_high_risk (map (λ f. f.1) (constraint_findings fl spend c)) ≡ false) ↔ Respects spend c
  unfolding constraint_findings has_high_risk
  high_of_constraint spend c = (
    λ h hard. elim (Option-cases (budget_limit fl c.value)) [
      | inl e ↦ absurd (ground (arith, e))
      | inr (limit, e) ↦ (limit, e, ground (arith, e))
    ],
    λ r. elim (Bool-cases (is_hard_budget c)) [
      | inl hard ↦ let (limit, e, le) = r hard in ground (arith, e, le)
      | inr soft ↦ ground arith
    ],
  )

  has_high_risk-append :
      (xs ys : List (String × Risk))
      → has_high_risk (map (λ f. f.1) (xs ++ ys))
        ≡ (has_high_risk (map (λ f. f.1) xs) || has_high_risk (map (λ f. f.1) ys))
  unfolding has_high_risk
  has_high_risk-append [] ys = refl
  has_high_risk-append (x ∷ xs) ys = ground (arith, has_high_risk-append xs ys)

  findings_iff :
      (spend : F) (constraints : List Constraint)
      → (has_high_risk (map (λ f. f.1) (hard_budget_findings fl spend constraints)) ≡ false)
        ↔ All (Respects spend) constraints
  unfolding hard_budget_findings
  findings_iff spend [] = (λ _. tt, λ _. unfold has_high_risk in refl)
  findings_iff spend (c ∷ cs) =
      let split =
        has_high_risk-append (constraint_findings fl spend c) (hard_budget_findings fl spend cs) in
      (
        λ h.
            let (p, q) = (or-eq-false _ _).0 (sym split ∙ h) in
            ((high_of_constraint spend c).0 p, (findings_iff spend cs).0 q),
        λ (r, rs).
            split
            ∙ (or-eq-false _ _).1 ((high_of_constraint spend c).1 r, (findings_iff spend cs).1 rs),
      )

  -- The marketing budgets of the actions, added up in their order.
  unfoldable pub marketing_total : F → List (Action F) → F
  marketing_total spend [] = spend
  marketing_total spend (a ∷ actions) =
      marketing_total (elim a.type [ marketing_budget ↦ add spend a.value | _ ↦ spend ]) actions

  spend-apply_action_type :
      (t : ActionType) (products : Map Product) (orders : Map F) (a : Action F)
      (p q : Projection fl)
      → apply_action_type fl t products orders a p ≡ ok q
      → q.spend ≡ elim t [ marketing_budget ↦ add p.spend a.value | _ ↦ p.spend ]
  unfolding apply_action_type
  spend-apply_action_type t products orders a p q h = ground arith

  spend-apply_actions :
      (products : Map Product) (orders : Map F) (actions : List (Action F)) (p q : Projection fl)
      → apply_actions fl products orders actions p ≡ ok q
      → q.spend ≡ marketing_total p.spend actions
  unfolding apply_actions marketing_total
  spend-apply_actions products orders [] p q h = ground arith
  spend-apply_actions products orders (a ∷ actions) p q h =
      let (r, e, f) = >>=-eq-ok (apply_action_type fl a.type products orders a p) _ h in
      spend-apply_actions products orders actions r q f
      ∙ ap (λ s. marketing_total s actions) (spend-apply_action_type a.type products orders a p r e)

  -- The marketing spend that a simulated scenario reports.
  abbrev pub reported_spend : Scenario F → F
  reported_spend s = lookup_or (of_int (pos 0)) "marketing_spend_cents" s.result.projected_metrics

  -- A simulation reports as marketing spend the sum of its marketing budgets, and its scenario has
  -- no high-severity risk exactly if every hard budget constraint of the goal has a usable limit
  -- that this spend does not exceed.
  pub simulate_budget :
      (snapshot : Snapshot F) (goal : Goal) (candidate next : Scenario F)
      → simulate fl snapshot goal candidate ≡ ok next
      → (reported_spend next ≡ marketing_total (of_int (pos 0)) candidate.proposed_actions)
        × ((has_high_risk next.risks ≡ false)
            ↔ All (Respects (reported_spend next)) goal.constraints)
  unfolding simulated_scenario baseline lookup
  simulate_budget snapshot goal candidate next h =
      let v = simulate-IsSimulation fl snapshot goal candidate h in
      rw v.returned (
        spend-apply_actions _ _ candidate.proposed_actions _ v.projection v.applied,
        findings_iff v.projection.spend goal.constraints,
      )
