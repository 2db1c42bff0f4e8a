-- ===== src/Workflow/Agent/Suggestions.antt =====
-- internal/application/agentworkflow/service.go: the check of a provider's tool suggestion.
pub mod Safe
use webmcp_backend.Common.{
  ℕ, String, Bool, true, false, not, ◌&&◌, ◌||◌, Option, none, some, List, [], ◌∷◌, ◌==◌, string_eq,
  nat_eq, ltb, length, each, map, message, Error, Checked, Result, ok, err, reject, ◌>>=◌, ◌>>◌,
  if◌then◌else◌,
}
use webmcp_backend.Common.Int.{pos}
use webmcp_backend.Common.Float.{Float64}
use webmcp_backend.Common.Text.{trim, is_empty, is_blank}
use webmcp_backend.Common.Text.Runes.{rune_count, limit_text}
use webmcp_backend.Workflow.Agent.Data.{
  ToolSuggestion, ToolDescriptor, ActionArguments, ArgumentCodec,
}
use webmcp_backend.Workflow.Agent.Tools.{has_name, tool_risk}

-- `validText`
unfoldable valid_text : String → ℕ → Bool
valid_text value max = not (is_blank value) && not (ltb max (rune_count (trim value)))

-- The value that was read, or the error of a tool whose arguments cannot be read.
abbrev read_or : {A : Type 0} → String → Option A → Result A
read_or complaint none = err (message complaint)
read_or complaint (some a) = ok a

abbrev pub reason_or_default : String → String
reason_or_default reason =
    if is_empty reason then "This typed capability matches the current workflow stage." else reason

module _ (fl : Float64) {A : Type 0} (codec : ArgumentCodec fl.F A) where
  open fl use {F, of_int, decimal, lt}
  open codec use {
    no_arguments, size, read_focus, read_scenario_id, read_scenario_ids, read_scenario, read_action,
    read_proposal, read_feedback, of_focus, of_scenario_id, of_scenario_ids,
  }

  unfoldable pub validate_action : ActionArguments F → Checked
  unfolding valid_text
  validate_action a =
      reject
        (not (
            has_name a.type
              ("price_adjustment" ∷ "inventory_replenishment" ∷ "marketing_budget" ∷ []))
          || not (has_name a.unit ("percent" ∷ "units" ∷ "cents" ∷ []))
          || (not (is_empty a.target_id) && not (valid_text a.target_id 200))
          || lt a.value (of_int (pos 0))
          || lt (decimal 1000000000 0) a.value)
        (message "scenario action is invalid")

  -- The `switch` on the name: the arguments that the suggestion keeps.
  unfoldable pub checked_arguments : String → A → Result A
  unfolding valid_text validate_action
  checked_arguments name args =
      if has_name name
        ("get_business_snapshot" ∷ "request_human_review" ∷ "verify_committed_result" ∷ [])
      then (do reject (not (size args == 0)) (message "tool does not accept arguments"); ok args)
      else if name == "analyze_business"
      then (do
        focus ← read_or "analysis focus is invalid" (read_focus args)
        reject (is_blank focus || ltb 1000 (rune_count focus)) (message "analysis focus is invalid")
        ok (of_focus (trim focus)))
      else if name == "run_scenario"
      then (do
        id ← read_or "scenario id is invalid" (read_scenario_id args)
        reject (not (valid_text id 200)) (message "scenario id is invalid")
        ok (of_scenario_id (trim id)))
      else if name == "compare_scenarios"
      then (do
        ids ← read_or "scenario ids are invalid" (read_scenario_ids args)
        reject (ltb (length ids) 2 || ltb 8 (length ids)) (message "scenario ids are invalid")
        each (λ id. reject (not (valid_text id 200)) (message "scenario id is invalid")) ids
        ok (of_scenario_ids ids))
      else if name == "create_scenario"
      then (do
        value ← read_or "scenario arguments are invalid" (read_scenario args)
        reject
            (not (valid_text value.0 120)
              || not (valid_text value.1 1000)
              || length value.2 == 0
              || ltb 8 (length value.2))
            (message "scenario arguments are invalid")
        each (λ raw. read_or "scenario action is invalid" (read_action raw) >>= validate_action)
            value.2
        ok args)
      else if name == "draft_proposal"
      then (do
        value ← read_or "proposal arguments are invalid" (read_proposal args)
        reject (not (valid_text value.0 200) || not (valid_text value.1 2000))
            (message "proposal arguments are invalid")
        ok args)
      else if name == "revise_proposal"
      then (do
        feedback ← read_or "proposal feedback is invalid" (read_feedback args)
        reject (not (valid_text feedback 2000)) (message "proposal feedback is invalid")
        ok args)
      else ok args

  abbrev pub given : Option A → A
  given none = no_arguments
  given (some args) = args

  -- The suggestion with the arguments that it keeps.
  unfoldable pub finish_suggestion : ToolSuggestion A → Bool → A → Result (ToolSuggestion A)
  finish_suggestion s guest args = do
    reject
        ((tool_risk (trim s.name) == "human_gate" || guest)
          && trim s.name == "commit_approved_proposal")
        (message "guest or chat cannot execute commit")
    ok (record {
      name = trim s.name;
      arguments = some args;
      reason = reason_or_default (limit_text s.reason 500);
      risk = tool_risk (trim s.name);
    })

  -- `validateSuggestion`; `guest` is the only part of the input that it reads.
  unfoldable pub validate_suggestion :
      ToolSuggestion A → Bool → List ToolDescriptor → Result (ToolSuggestion A)
  unfolding checked_arguments finish_suggestion
  validate_suggestion s guest allowed = do
    reject (is_empty (trim s.name) || trim s.name == "commit_approved_proposal")
        (message "consequential or empty suggestion is not chat-executable")
    reject (not (has_name (trim s.name) (map (λ d. d.name) allowed)))
        (message "tool is not exposed for the current workflow stage")
    args ← checked_arguments (trim s.name) (given s.arguments)
    finish_suggestion s guest args
