-- ===== src/Domain/Scenario/Comparison.antt =====
-- internal/domain/scenario/simulation.go, `Compare`: the recommendation among simulated scenarios.
pub mod Best
pub mod Recommendation
use webmcp_backend.Common.{
  String, Bool, true, false, not, ◌&&◌, ◌||◌, Option, none, some, List, [], ◌∷◌, ◌++◌, ◌==◌,
  if◌then◌else◌, any, length, ltb, message, about, Result, ok, err, reject, ◌>>=◌, ◌>>◌,
}
use webmcp_backend.Common.Text.{equal_fold, text_ltb}
use webmcp_backend.Common.Int.{pos}
use webmcp_backend.Common.Float.{Float64}
use webmcp_backend.Common.Maps.{Map, lookup_or}
use webmcp_backend.Domain.Core.{Ident}
use webmcp_backend.Domain.Scenario.{Scenario, Outcome, Risk, Status, simulated, compared, status_eq}

pub record ComparisonItem (F : Type 0) : Type 0 where
  pub id : Ident
  pub name : String
  pub status : Status
  pub projected_metrics : Map F
  pub metric_deltas : Map F
  pub risks : List Risk
  pub warnings : List String

pub record Comparison (F : Type 0) : Type 0 where
  pub items : List (ComparisonItem F)
  pub recommended_scenario_id : Ident
  pub recommendation_available : Bool
  pub recommendation_basis : String
  pub warnings : List String

unfoldable pub is_high : Risk → Bool
unfolding equal_fold
is_high r = equal_fold r.severity "high"

-- `hasHighRisk`
unfoldable pub has_high_risk : List Risk → Bool
unfolding is_high
has_high_risk = any is_high

-- One comparison item, as the loop builds it.
unfoldable pub item_of : {F : Type 0} → Scenario F → ComparisonItem F
item_of s = record {
  id = s.id;
  name = s.name;
  status = s.status;
  projected_metrics = s.result.projected_metrics;
  metric_deltas = s.result.metric_deltas;
  risks = s.risks;
  warnings = s.result.warnings;
}

module _ (fl : Float64) where
  open fl use {F, of_int, eq, lt}

  -- `Result.ProjectedMetrics["margin_cents"]`, zero where the map has no such key
  unfoldable pub margin : Scenario F → F
  margin s = lookup_or (of_int (pos 0)) "margin_cents" s.result.projected_metrics

  unfoldable pub better_margin : Scenario F → Scenario F → Bool
  better_margin candidate current =
      if eq (margin candidate) (margin current)
      then text_ltb candidate.id current.id
      else lt (margin current) (margin candidate)

  -- `best == nil || betterMargin(candidate, *best)`
  unfoldable pub improves : Scenario F → Option (Scenario F) → Bool
  improves candidate none = true
  improves candidate (some best) = better_margin candidate best

  -- The best scenario after one more candidate.
  unfoldable pub next_best : Option (Scenario F) → Scenario F → Option (Scenario F)
  unfolding improves
  next_best best candidate =
      if has_high_risk candidate.risks
      then best
      else if improves candidate best
      then some candidate
      else best

  -- The loop of `Compare` over its items and its best candidate.
  unfoldable pub compare_from :
      List (Scenario F)
      → List (ComparisonItem F)
      → Option (Scenario F)
      → Result (List (ComparisonItem F) × Option (Scenario F))
  compare_from [] items best = ok (items, best)
  compare_from (s ∷ rest) items best = do
    reject (not (s.status == simulated) && not (s.status == compared))
        (about "scenario must be simulated before comparison" s.id)
    reject (not s.result.calculated) (about "scenario has no calculated result" s.id)
    compare_from rest (items ++ item_of s ∷ []) (next_best best s)

  -- What `Compare` returns after the loop.
  unfoldable pub recommend : List (ComparisonItem F) × Option (Scenario F) → Comparison F
  recommend (items, none) = record {
    items = items;
    recommended_scenario_id = "";
    recommendation_available = false;
    recommendation_basis = "";
    warnings =
        "every candidate contains a high-severity risk; human review must resolve the risks before selection"
        ∷ [];
  }
  recommend (items, some best) = record {
    items = items;
    recommended_scenario_id = best.id;
    recommendation_available = true;
    recommendation_basis = "highest projected margin among candidates without high-severity risks";
    warnings = [];
  }

  -- `Compare`
  unfoldable pub compare : List (Scenario F) → Result (Comparison F)
  compare candidates = do
    reject (ltb (length candidates) 2)
        (message "at least two scenarios are required for comparison")
    result ← compare_from candidates [] none
    ok (recommend result)
