-- ===== src/Domain/Scenario/Simulation.antt =====
-- internal/domain/scenario/simulation.go, `Simulate`: the deterministic projection of a scenario
-- over a verified snapshot. Every float operation is one of the `Float64` interface, in the
-- source's order.
pub mod Inversion
pub mod Budget
pub mod Targets
use Prim.Native.String.{◌++◌ as append}
use mathlib.Core.List.{foldl}
use webmcp_backend.Common.{
  String, Bool, true, false, not, ◌||◌, ◌&&◌, Option, none, some, List, [], ◌∷◌, ◌++◌, map, ◌==◌,
  nat_eq, string_eq, if◌then◌else◌, message, about, wrapping, Result, ok, err, reject, ◌>>=◌, ◌>>◌,
}
use webmcp_backend.Common.Text.{trim, equal_fold}
use webmcp_backend.Common.Int.{pos, add_u64}
use webmcp_backend.Common.Float.{Float64}
use webmcp_backend.Common.Maps.{Map, lookup, insert, lookup_or}
use webmcp_backend.Domain.Core.{Ident}
use webmcp_backend.Domain.Business.{Product, Order, Snapshot, validate_snapshot}
use webmcp_backend.Domain.Planning.{Goal, Constraint, validate_goal}
use webmcp_backend.Domain.Scenario.{
  Action, ActionType, price_adjustment, inventory_replenish, marketing_budget, Scenario, Outcome,
  Risk, draft, simulated, status_eq, validate_scenario,
}

-- `products[string(product.ID)] = product` for each product
unfoldable pub product_map : List Product → Map Product
product_map = foldl (λ m p. insert p.id p m) []

abbrev pub high : String
high = "high"

abbrev unknown_budget : Risk
unknown_budget = record {
  key = "budget_constraint_unknown";
  description = "The hard budget constraint needs a numeric cents value before approval.";
  severity = high;
}

abbrev exceeded_budget : Risk
exceeded_budget = record {
  key = "budget_exceeded";
  description = "Projected marketing spend exceeds the human hard budget constraint.";
  severity = high;
}

-- `constraint.Hard && strings.EqualFold(strings.TrimSpace(constraint.Key), "budget")`
unfoldable pub is_hard_budget : Constraint → Bool
is_hard_budget c = c.hard && equal_fold (trim c.key) "budget"

abbrev pub is_active : Option Product → Bool
is_active none = false
is_active (some p) = p.active

module _ (fl : Float64) where
  open fl use {F, of_int, add, sub, mul, div, eq, lt, is_nan, is_inf, parse}

  -- What the loop over the orders accumulates.
  pub record Totals : Type 0 where
    pub by_product : Map F
    pub revenue : F
    pub cost : F

  unfoldable pub count_order : Totals → Order → Totals
  count_order t o = record {
    by_product =
        insert o.product_id
          (add (lookup_or (of_int (pos 0)) o.product_id t.by_product) (of_int o.revenue_cents))
          t.by_product;
    revenue = add t.revenue (of_int o.revenue_cents);
    cost = add t.cost (of_int o.cost_cents);
  }

  unfoldable pub total_orders : List Order → Totals
  unfolding count_order
  total_orders =
      foldl count_order
        (record { by_product = []; revenue = of_int (pos 0); cost = of_int (pos 0) })

  unfoldable pub total_inventory : List Product → F
  total_inventory = foldl (λ n p. add n (of_int p.inventory_units)) (of_int (pos 0))

  -- What the loop over the actions accumulates.
  pub record Projection : Type 0 where
    pub revenue : F
    pub cost : F
    pub inventory : F
    pub spend : F
    pub warnings : List String

  -- The `switch` of the loop's body; a type that validation refuses falls through it.
  unfoldable pub apply_action_type :
      ActionType → Map Product → Map F → Action F → Projection → Result Projection
  apply_action_type price_adjustment products orders a p = do
    reject (not (is_active (lookup a.target_id products)))
        (about "price adjustment target is not an active product" a.target_id)
    let product_revenue = lookup_or (of_int (pos 0)) a.target_id orders
    ok (record p {
      revenue = add p.revenue (div (mul product_revenue a.value) (of_int (pos 100)));
      warnings =
          if eq product_revenue (of_int (pos 0))
          then p.warnings
            ++ append "product "
                (append a.target_id " has no observed order revenue in the snapshot")
              ∷ []
          else p.warnings;
    })
  apply_action_type inventory_replenish products orders a p = do
    reject (not (is_active (lookup a.target_id products)))
        (about "inventory target is not an active product" a.target_id)
    ok (record p { inventory = add p.inventory a.value })
  apply_action_type marketing_budget products orders a p = ok (record p {
    spend = add p.spend a.value;
    revenue = add p.revenue (mul a.value (of_int (pos 2)));
    cost = add p.cost a.value;
  })
  apply_action_type _ products orders a p = ok p

  unfoldable pub apply_actions :
      Map Product → Map F → List (Action F) → Projection → Result Projection
  apply_actions products orders [] p = ok p
  apply_actions products orders (a ∷ actions) p =
      apply_action_type a.type products orders a p >>= apply_actions products orders actions

  -- `err != nil || math.IsNaN(limit) || math.IsInf(limit, 0) || limit < 0`
  unfoldable pub budget_limit : String → Option F
  budget_limit s = elim (parse (trim s)) [
    | none ↦ none
    | some limit ↦
        if is_nan limit || is_inf limit || lt limit (of_int (pos 0)) then none else some limit
  ]

  -- The warning and the risk that one hard budget constraint adds.
  unfoldable budget_findings : F → Option F → List (String × Risk)
  budget_findings spend none =
      (
        "hard budget constraint could not be evaluated because its value is not numeric",
        unknown_budget,
      )
      ∷ []
  budget_findings spend (some limit) =
      if lt limit spend
      then ("projected marketing spend exceeds the hard budget constraint", exceeded_budget) ∷ []
      else []

  -- One round of the loop of `applyHardBudgetRisk`.
  unfoldable pub constraint_findings : F → Constraint → List (String × Risk)
  unfolding budget_findings
  constraint_findings spend c =
      if is_hard_budget c then budget_findings spend (budget_limit c.value) else []

  -- `applyHardBudgetRisk`, the pairs of what it appends to the warnings and to the risks
  unfoldable pub hard_budget_findings : F → List Constraint → List (String × Risk)
  hard_budget_findings spend [] = []
  hard_budget_findings spend (c ∷ constraints) =
      constraint_findings spend c ++ hard_budget_findings spend constraints

  -- The projection before the first action.
  unfoldable pub baseline : Snapshot F → Projection
  unfolding total_orders total_inventory
  baseline s = record {
    revenue = (total_orders s.orders).revenue;
    cost = (total_orders s.orders).cost;
    inventory = total_inventory s.products;
    spend = of_int (pos 0);
    warnings = [];
  }

  -- The simulated scenario, from the baseline and from the projection after the last action.
  unfoldable pub simulated_scenario : Goal → Scenario F → Projection → Projection → Scenario F
  simulated_scenario goal candidate base p =
      let found = hard_budget_findings p.spend goal.constraints in
      let projected_margin = sub p.revenue p.cost in
      let baseline_margin = sub base.revenue base.cost in
      record candidate {
        result = record {
          baseline_metrics =
              ("revenue_cents", base.revenue)
              ∷ ("cost_cents", base.cost)
              ∷ ("margin_cents", baseline_margin)
              ∷ ("inventory_units", base.inventory)
              ∷ [];
          projected_metrics =
              ("revenue_cents", p.revenue)
              ∷ ("cost_cents", p.cost)
              ∷ ("margin_cents", projected_margin)
              ∷ ("inventory_units", p.inventory)
              ∷ ("marketing_spend_cents", p.spend)
              ∷ [];
          metric_deltas =
              ("revenue_cents", sub p.revenue base.revenue)
              ∷ ("cost_cents", sub p.cost base.cost)
              ∷ ("margin_cents", sub projected_margin baseline_margin)
              ∷ ("inventory_units", sub p.inventory base.inventory)
              ∷ [];
          warnings = p.warnings ++ map (λ f. f.0) found;
          calculated = true;
        };
        risks = map (λ f. f.1) found;
        status = simulated;
        version = add_u64 candidate.version 1;
      }

  -- `Simulate`
  unfoldable pub simulate : Snapshot F → Goal → Scenario F → Result (Scenario F)
  simulate snapshot goal candidate = do
    wrapping "invalid simulation snapshot" (validate_snapshot snapshot)
    wrapping "invalid simulation goal" (validate_goal goal)
    wrapping "invalid simulation scenario" (validate_scenario fl candidate)
    reject (not (candidate.status == draft)) (message "only draft scenarios can be simulated")
    reject
        (not (candidate.business_id == snapshot.business_id)
          || not (candidate.goal_id == goal.id)
          || not (candidate.base_business_version == snapshot.version))
        (message "scenario context does not match the verified snapshot and goal")
    p ←
        apply_actions (product_map snapshot.products) (total_orders snapshot.orders).by_product
          candidate.proposed_actions (baseline snapshot)
    ok (simulated_scenario goal candidate (baseline snapshot) p)
