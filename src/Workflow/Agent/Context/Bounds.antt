-- ===== src/Workflow/Agent/Context/Bounds.antt =====
-- internal/application/agentworkflow/service.go: how much a provider is told.
use webmcp_backend.Common.{ℕ, zero, suc, ◌-◌, ◌≤◌, List, [], ◌∷◌, map, length, All, arith}
use webmcp_backend.Common.Float.{Float64}
use webmcp_backend.Common.Text.Runes.{rune_count, rune_count-limit_text}
use webmcp_backend.Domain.Business.{Snapshot, Metric}
use webmcp_backend.Domain.Planning.{Goal, Constraint}
use webmcp_backend.Workflow.Agent.Data.{Turn, ChatInput, Prompt, ArgumentCodec}
use webmcp_backend.Workflow.Agent.Context.{
  metric_facts, guardrail_facts, project_context, drop_turns, limited, bounded_history,
}
use webmcp_backend.Workflow.Agent.Chat.{prompt_of}

length-metric_facts : {F : Type 0} (n : ℕ) (ms : List (Metric F)) → length (metric_facts n ms) ≤ n
unfolding metric_facts
length-metric_facts zero ms = omega arith
length-metric_facts (suc n) [] = omega arith
length-metric_facts (suc n) (m ∷ ms) = omega (arith, length-metric_facts n ms)

length-guardrail_facts : (n : ℕ) (cs : List Constraint) → length (guardrail_facts n cs) ≤ n
unfolding guardrail_facts
length-guardrail_facts zero cs = omega arith
length-guardrail_facts (suc n) [] = omega arith
length-guardrail_facts (suc n) (c ∷ cs) = omega (arith, length-guardrail_facts n cs)

length-drop_turns : (n : ℕ) (ts : List Turn) → length (drop_turns n ts) ≤ length ts - n
unfolding drop_turns
length-drop_turns zero ts = omega arith
length-drop_turns (suc n) [] = omega arith
length-drop_turns (suc n) (t ∷ ts) = omega (arith, length-drop_turns n ts)

length-map : {A B : Type 0} (f : A → B) (xs : List A) → length (map f xs) ≤ length xs
length-map f [] = omega arith
length-map f (x ∷ xs) = omega (arith, length-map f xs)

length-bounded_history : (ts : List Turn) → length (bounded_history ts) ≤ 8
unfolding bounded_history
length-bounded_history ts =
    let kept = length-drop_turns (length ts - 8) ts in
    omega (arith, kept, length-map limited (drop_turns (length ts - 8) ts))

abbrev ShortTurn : Turn → Type 0
ShortTurn t = rune_count t.content ≤ 2000

contents_short : (ts : List Turn) → All ShortTurn (map limited ts)
contents_short [] = tt
contents_short (t ∷ ts) = (rune_count-limit_text t.content 2000, contents_short ts)

pub record Bounded {F : Type 0} (p : Prompt F) : Type 0 where
  pub history : length p.history ≤ 8
  pub contents : All ShortTurn p.history
  pub metrics : length p.context.metrics ≤ 12
  pub guardrails : length p.context.guardrails ≤ 12

module _ (fl : Float64) {A : Type 0} (codec : ArgumentCodec fl.F A) where
  -- Whatever the input and the business, a provider is told at most eight turns of the
  -- conversation, of at most 2000 runes each, twelve metrics and twelve guardrails.
  pub prompt_of-Bounded :
      (i : ChatInput) (snapshot : Snapshot fl.F) (goal : Goal)
      → Bounded (prompt_of fl codec i snapshot goal)
  unfolding prompt_of project_context bounded_history
  prompt_of-Bounded i snapshot goal = record {
    history = length-bounded_history i.recent_messages;
    contents = contents_short (drop_turns (length i.recent_messages - 8) i.recent_messages);
    metrics = length-metric_facts 12 snapshot.metrics;
    guardrails = length-guardrail_facts 12 goal.constraints;
  }
