-- ===== src/Workflow/Agent/Deterministic.antt =====
-- internal/application/agentworkflow/deterministic.go: the provider that answers without a model.
pub mod Guide
pub mod Total
use Prim.Native.String.{◌++◌ as append}
use webmcp_backend.Common.{
  String, Bool, true, false, ◌&&◌, ◌||◌, Option, none, some, List, [], ◌∷◌, map, if◌then◌else◌,
}
use webmcp_backend.Common.Int.{pos}
use webmcp_backend.Common.Float.{Float64}
use webmcp_backend.Common.Text.{trim, lower_contains}
use webmcp_backend.Common.Text.Decimal.{decimal}
use webmcp_backend.Workflow.Agent.Data.{
  ToolSuggestion, Prompt, ProviderResponse, Provider, ArgumentCodec, answered,
}
use webmcp_backend.Workflow.Agent.Tools.{has_name}

abbrev pub default_text : String
default_text =
    "I can work with the verified business context, analyze evidence, model bounded alternatives, and prepare a reviewable proposal. Ask me to inspect the business pulse or investigate a specific growth question."

-- What the message is about.
abbrev pub asks_decision : String → Bool
asks_decision text = lower_contains text "commit" || lower_contains text "approve"

abbrev pub asks_review : String → Bool
asks_review text = lower_contains text "review" || lower_contains text "submit"

abbrev pub asks_scenario : String → Bool
asks_scenario text =
    lower_contains text "scenario"
    || lower_contains text "alternative"
    || lower_contains text "retention"
    || lower_contains text "price"

abbrev pub asks_evidence : String → Bool
asks_evidence text =
    lower_contains text "analy"
    || lower_contains text "evidence"
    || lower_contains text "opportun"
    || lower_contains text "growth"

module _ (fl : Float64) {A : Type 0} (codec : ArgumentCodec fl.F A) where
  open fl use {F, of_int}
  open codec use {no_arguments, of_focus, of_scenario}

  -- No suggestion of the provider has a risk; the service fills it in.
  abbrev pub suggest : String → A → String → Option (ToolSuggestion A)
  suggest name args reason =
      some (record { name = name; arguments = some args; reason = reason; risk = "" })

  abbrev pub reply : String → Option (ToolSuggestion A) → ProviderResponse A
  reply text s = record { text = text; tool_suggestion = s }

  -- The answer about a new scenario.
  unfoldable pub scenario_reply : Bool → ProviderResponse A
  scenario_reply true =
      reply
        "I can create a bounded price-lift alternative for deterministic simulation. It will remain non-canonical until you review and approve a proposal."
        (suggest "create_scenario"
          (of_scenario "Selective price lift"
            "Increase contribution margin on the strongest sellers while keeping demand risk visible."
            (("price_adjustment", of_int (pos 5), "percent") ∷ []))
          "A typed scenario is the next safe capability for this exploration step.")
  scenario_reply false =
      reply
        "I can create a bounded retention alternative for deterministic simulation. It will remain non-canonical until you review and approve a proposal."
        (suggest "create_scenario"
          (of_scenario "Focused retention" "Grow repeat revenue without increasing stock pressure."
            (("marketing_budget", of_int (pos 8000), "cents") ∷ []))
          "A typed scenario is the next safe capability for this exploration step.")

  -- The `switch` of `Generate` on the message and on the names of the allowed tools.
  unfoldable pub answer_to : Prompt F → String → List String → ProviderResponse A
  unfolding scenario_reply
  answer_to prompt text allowed =
      if asks_decision text
      then reply
          "I will not approve or commit a decision from chat. Review the exact proposal, record a human reason, confirm the commit gate, and let the backend verify the resulting business version."
          none
      else if asks_review text && has_name "request_human_review" allowed
      then reply
          "The current workflow can submit the exact proposal version for human review. The review record is separate from this conversation and does not commit business state."
          (suggest "request_human_review" no_arguments
            "You asked to move the current working proposal to the human review boundary.")
      else if asks_scenario text && has_name "create_scenario" allowed
      then scenario_reply (lower_contains text "price")
      else if asks_evidence text
      then (if has_name "analyze_business" allowed
          then reply
              "I will use the verified snapshot and current goal to produce evidence, signals, trade-offs, and guardrails. The calculation remains deterministic in the backend."
              (suggest "analyze_business" (of_focus prompt.text)
                "Your question is an evidence-analysis request for the current business goal.")
          else if has_name "get_business_snapshot" allowed
          then reply default_text (
              suggest "get_business_snapshot" no_arguments
                "The current stage exposes business context before deeper analysis.")
          else reply default_text none)
      else if has_name "get_business_snapshot" allowed
      then reply
          (append "The workspace is grounded at business version " (
            append (decimal prompt.context.business_version)
              ". I can read the business pulse, investigate evidence, compare bounded scenarios, and prepare a proposal while you retain approval and commit authority."))
          (suggest "get_business_snapshot" no_arguments
            "Start with the authoritative business snapshot before taking a strategic step.")
      else reply default_text none

  unfoldable pub deterministic : {W : Type 0} → Provider F A W
  unfolding answer_to
  deterministic = record {
    label = some "deterministic_fallback";
    generate = λ prompt w. (
      answered (answer_to prompt (trim prompt.text) (map (λ d. d.name) prompt.allowed_tools)),
      w,
    );
  }
