-- ===== src/Workflow/Analysis.antt =====
-- internal/application/analysisworkflow/service.go: the deterministic analysis of a snapshot
-- against a goal. The descriptions are the texts that the code carries.
use Prim.Native.String.{len}
use webmcp_backend.Common.{
  ℕ, suc, String, not, ◌&&◌, ◌||◌, Option, List, [], ◌∷◌, ◌++◌, ◌==◌, string_eq, ltb, if◌then◌else◌,
  message, Error, ok,
}
use webmcp_backend.Common.Text.{trim, is_empty, lower_contains}
use webmcp_backend.Common.Int.{ℤ, pos, add64, sub64, ltb_ℤ, int_eq}
use webmcp_backend.Common.Float.{Float64}
use webmcp_backend.Common.Io.{Io, ◌>>=◌, ◌>>◌, lift, reject}
use webmcp_backend.Domain.Core.{Ident, validate_ids}
use webmcp_backend.Domain.Business.{Snapshot, Product, Order, Customer}
use webmcp_backend.Domain.Planning.{Goal, Constraint}
use webmcp_backend.Workflow.Ports.{BusinessSnapshotReader, GoalReader, required}

abbrev analysis_not_found : Error
analysis_not_found = message "analysis context was not found"

pub record Input : Type 0 where
  pub organization_id : Ident
  pub actor_id : Ident
  pub business_id : Ident
  pub goal_id : Ident
  pub focus : String

pub record Signal (F : Type 0) : Type 0 where
  pub key : String
  pub title : String
  pub description : String
  pub confidence : F

pub record Evidence (F : Type 0) : Type 0 where
  pub source : String
  pub metric : String
  pub value : F
  pub unit : String

pub record Tradeoff : Type 0 where
  pub key : String
  pub dimension : String
  pub description : String

-- The guardrails are the goal's constraints, field by field.
pub record Analysis (F : Type 0) : Type 0 where
  pub business_id : Ident
  pub goal_id : Ident
  pub business_version : ℕ
  pub focus : String
  pub signals : List (Signal F)
  pub evidence : List (Evidence F)
  pub tradeoffs : List Tradeoff
  pub guardrails : List Constraint

-- The loops of `buildResult`.
unfoldable pub active_products : List Product → ℕ
active_products [] = 0
active_products (p ∷ ps) = let n = active_products ps in if p.active then suc n else n

unfoldable pub sum_inventory : ℤ → List Product → ℤ
sum_inventory acc [] = acc
sum_inventory acc (p ∷ ps) = sum_inventory (add64 acc p.inventory_units) ps

unfoldable pub sum_revenue : ℤ → List Order → ℤ
sum_revenue acc [] = acc
sum_revenue acc (o ∷ os) = sum_revenue (add64 acc o.revenue_cents) os

unfoldable pub sum_cost : ℤ → List Order → ℤ
sum_cost acc [] = acc
sum_cost acc (o ∷ os) = sum_cost (add64 acc o.cost_cents) os

unfoldable pub repeat_customers : List Customer → ℕ
repeat_customers [] = 0
repeat_customers (c ∷ cs) =
    let n = repeat_customers cs in
    if c.active && lower_contains c.segment "repeat" then suc n else n

-- `constraintViews`
unfoldable pub constraint_views : List Constraint → List Constraint
constraint_views [] = []
constraint_views (c ∷ cs) =
    record {
      id = c.id;
      goal_id = c.goal_id;
      key = c.key;
      value = c.value;
      hard = c.hard;
      created_by = c.created_by;
    }
    ∷ constraint_views cs

module _ (fl : Float64) where
  open fl use {F, of_int, decimal, mul, div}

  unfoldable pub margin_rate : ℤ → ℤ → F
  margin_rate revenue cost =
      if ltb_ℤ (pos 0) revenue
      then mul (div (of_int (sub64 revenue cost)) (of_int revenue)) (of_int (pos 100))
      else of_int (pos 0)

  abbrev verified : String → F → String → Evidence F
  verified metric value unit = record {
    source = "verified business snapshot";
    metric = metric;
    value = value;
    unit = unit;
  }

  unfoldable pub inventory_signal : ℤ → List (Signal F)
  inventory_signal units =
      if units == pos 0
      then record {
        key = "inventory_unknown";
        title = "Inventory pressure needs attention";
        description = "No active inventory units are available in the verified snapshot.";
        confidence = decimal 91 2;
      }
        ∷ []
      else []

  abbrev tradeoff_texts : List Tradeoff
  tradeoff_texts =
      record {
        key = "growth_vs_margin";
        dimension = "economics";
        description =
            "Retention spend can expand revenue while reducing near-term margin if the offer is too broad.";
      }
      ∷ record {
        key = "growth_vs_inventory";
        dimension = "operations";
        description = "Demand growth must remain within the human inventory guardrails.";
      }
      ∷ []

  -- `buildResult`
  unfoldable pub build_result : Snapshot F → Goal → String → Analysis F
  build_result snapshot goal focus =
      let revenue = sum_revenue (pos 0) snapshot.orders in
      let cost = sum_cost (pos 0) snapshot.orders in
      let repeats = repeat_customers snapshot.customers in
      record {
        business_id = snapshot.business_id;
        goal_id = goal.id;
        business_version = snapshot.version;
        focus = focus;
        signals =
            (record {
              key = "repeat_revenue";
              title = "Repeat-customer leverage";
              description =
                  "Active repeat customers provide a measurable audience for a targeted retention move.";
              confidence = if ltb 0 repeats then decimal 92 2 else decimal 58 2;
            }
              ∷ record {
                key = "margin_capacity";
                title = "Margin capacity is visible";
                description =
                    "The current snapshot supports comparing growth upside against contribution margin.";
                confidence = if ltb_ℤ (pos 0) revenue then decimal 88 2 else decimal 46 2;
              }
              ∷ [])
            ++ inventory_signal (sum_inventory (pos 0) snapshot.products);
        evidence =
            verified "revenue_cents" (of_int revenue) "cents"
            ∷ verified "margin_cents" (of_int (sub64 revenue cost)) "cents"
            ∷ verified "active_products" (of_int (pos (active_products snapshot.products))) "count"
            ∷ verified "repeat_customers" (of_int (pos repeats)) "count"
            ∷ record {
              source = "derived deterministic measure";
              metric = "margin_percent";
              value = margin_rate revenue cost;
              unit = "percent";
            }
            ∷ [];
        tradeoffs = tradeoff_texts;
        guardrails = constraint_views goal.constraints;
      }

  module _ {W : Type 0} (snapshots : Option (BusinessSnapshotReader F W))
      (goals : Option (GoalReader W)) where
    -- `Analyze`
    unfoldable pub analyze : Input → Io W (Analysis F)
    analyze i = do
      lift (
          validate_ids (
            ("organization_id", i.organization_id)
            ∷ ("actor_id", i.actor_id)
            ∷ ("business_id", i.business_id)
            ∷ ("goal_id", i.goal_id)
            ∷ []))
      reject (is_empty (trim i.focus) || ltb 1000 (len (trim i.focus)))
          (message "focus must be between 1 and 1000 characters")
      snapshot_reader ← required "analysis workflow dependencies are unavailable" snapshots
      goal_reader ← required "analysis workflow dependencies are unavailable" goals
      snapshot ← snapshot_reader.get_snapshot i.organization_id i.business_id
      goal ← goal_reader.get_goal i.organization_id i.business_id i.goal_id
      reject (not (goal.business_id == i.business_id)) analysis_not_found
      lift (ok (build_result snapshot goal (trim i.focus)))
