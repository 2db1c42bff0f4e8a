-- ===== src/Workflow/Agent/Context.antt =====
-- internal/application/agentworkflow/service.go: the checks of a conversation's input, and what of
-- the business and of the conversation a provider is told.
pub mod Bounds
use Prim.Native.String.{len}
use webmcp_backend.Common.{
  ℕ, zero, suc, ◌-◌, String, Bool, true, false, not, ◌&&◌, ◌||◌, List, [], ◌∷◌, ◌==◌, string_eq,
  ltb, length, each, map, message, Checked, reject, ◌>>◌, if◌then◌else◌,
}
use webmcp_backend.Common.Int.{ℤ, pos, add64, sub64}
use webmcp_backend.Common.Text.{is_blank}
use webmcp_backend.Common.Text.Runes.{rune_count, limit_text}
use webmcp_backend.Domain.Core.{validate_ids}
use webmcp_backend.Domain.Business.{Snapshot, Product, Customer, Order, Metric}
use webmcp_backend.Domain.Planning
use webmcp_backend.Domain.Planning.{Goal, Constraint, Preference}
use webmcp_backend.Workflow.Analysis.{repeat_customers, sum_revenue}
use webmcp_backend.Workflow.Agent.Data.{Turn, ChatInput, MetricFact, GuardrailFact, VerifiedContext}

unfoldable pub validate_tool_name : String → Checked
validate_tool_name name =
    reject (is_blank name || ltb 100 (rune_count name)) (message "available tool name is invalid")

unfoldable pub validate_turn : Turn → Checked
validate_turn turn = do
  reject (not (turn.role == "user") && not (turn.role == "assistant"))
      (message "recent message role is invalid")
  reject (is_blank turn.content || ltb 2000 (rune_count turn.content))
      (message "recent message content is invalid")

-- `validateInput`
unfoldable pub validate_input : ChatInput → Checked
unfolding validate_tool_name validate_turn
validate_input i = do
  validate_ids (
      ("organization_id", i.organization_id)
      ∷ ("actor_id", i.actor_id)
      ∷ ("business_id", i.business_id)
      ∷ ("goal_id", i.goal_id)
      ∷ [])
  reject (is_blank i.text || ltb 4000 (rune_count i.text))
      (message "message must contain between 1 and 4000 characters")
  reject
      (ltb 200 (len i.conversation_id)
        || ltb 40 (len i.current_stage)
        || ltb 24 (length i.available_tools)
        || ltb 8 (length i.recent_messages))
      (message "chat context exceeds its bounds")
  each validate_tool_name i.available_tools
  each validate_turn i.recent_messages

unfoldable pub active_products : List Product → ℕ
active_products [] = 0
active_products (p ∷ ps) = let n = active_products ps in if p.active then suc n else n

unfoldable sum_margin : ℤ → List Order → ℤ
sum_margin acc [] = acc
sum_margin acc (o ∷ os) = sum_margin (add64 acc (sub64 o.revenue_cents o.cost_cents)) os

-- The loops stop once there is no room left.
unfoldable pub metric_facts : {F : Type 0} → ℕ → List (Metric F) → List (MetricFact F)
metric_facts zero _ = []
metric_facts (suc room) [] = []
metric_facts (suc room) (m ∷ ms) =
    record { key = m.key; value = m.value; unit = m.unit; period = m.period } ∷ metric_facts room ms

unfoldable pub guardrail_facts : ℕ → List Constraint → List GuardrailFact
guardrail_facts zero _ = []
guardrail_facts (suc room) [] = []
guardrail_facts (suc room) (c ∷ cs) =
    record { key = c.key; value = c.value; hard = c.hard } ∷ guardrail_facts room cs

-- `string(goal.Preference)`
unfoldable preference_text : Preference → String
preference_text Preference.conservative = "conservative"
preference_text Preference.balanced = "balanced"
preference_text Preference.aggressive = "aggressive"
preference_text (Preference.other s) = s

-- `projectContext`
unfoldable pub project_context : {F : Type 0} → Snapshot F → Goal → VerifiedContext F
unfolding metric_facts guardrail_facts sum_margin active_products preference_text
project_context snapshot goal = record {
  business_id = snapshot.business_id;
  business_version = snapshot.version;
  product_count = length snapshot.products;
  active_product_count = active_products snapshot.products;
  customer_count = length snapshot.customers;
  repeat_customer_count = repeat_customers snapshot.customers;
  order_count = length snapshot.orders;
  revenue_cents = sum_revenue (pos 0) snapshot.orders;
  margin_cents = sum_margin (pos 0) snapshot.orders;
  metrics = metric_facts 12 snapshot.metrics;
  goal_id = goal.id;
  goal_version = goal.version;
  objective = goal.objective;
  time_horizon_days = goal.time_horizon_days;
  preference = preference_text goal.preference;
  guardrails = guardrail_facts 12 goal.constraints;
}

unfoldable pub drop_turns : ℕ → List Turn → List Turn
drop_turns zero turns = turns
drop_turns (suc n) [] = []
drop_turns (suc n) (t ∷ turns) = drop_turns n turns

abbrev pub limited : Turn → Turn
limited t = record { role = t.role; content = limit_text t.content 2000 }

-- `boundedHistory`: the last eight turns; the subtraction stops at 0, where nothing is dropped.
unfoldable pub bounded_history : List Turn → List Turn
unfolding drop_turns
bounded_history history = map limited (drop_turns (length history - 8) history)
