-- ===== src/Workflow/Agent/Chat.antt =====
-- internal/application/agentworkflow/service.go: one turn of the conversation. An error that wraps a
-- sentinel is `wrap` with the sentinel's text.
pub mod Answers
pub mod Chain
use webmcp_backend.Common.{
  ℕ, zero, suc, String, Bool, true, false, not, ◌&&◌, ◌||◌, Option, none, some, List, [], ◌∷◌, ◌++◌,
  ◌==◌, string_eq, nat_eq, ltb, message, wrap, Error, Result, ok, err, if◌then◌else◌,
}
use webmcp_backend.Common.Float.{Float64}
use webmcp_backend.Common.Io.{Io, ◌>>=◌, ◌>>◌, lift, reject}
use webmcp_backend.Common.Text.{trim, is_blank}
use webmcp_backend.Common.Text.Runes.{limit_text}
use webmcp_backend.Domain.Business.{Snapshot}
use webmcp_backend.Domain.Planning.{Goal}
use webmcp_backend.Workflow.Ports.{BusinessSnapshotReader, GoalReader, Random, fresh_id, required}
use webmcp_backend.Workflow.Agent.Data.{
  ChatInput, ToolSuggestion, Response, Prompt, ProviderResponse, Generated, Provider, ArgumentCodec,
  answered, cancelled, failed, agent_context_not_found,
}
use webmcp_backend.Workflow.Agent.Tools.{canonical_stage, allowed_descriptors}
use webmcp_backend.Workflow.Agent.Context.{validate_input, project_context, bounded_history}
use webmcp_backend.Workflow.Agent.Suggestions.{validate_suggestion}

-- The index, the label and the answer of the provider that is used.
pub record Used (A : Type 0) : Type 0 where
  pub index : ℕ
  pub label : String
  pub answer : ProviderResponse A

-- `providerLabel`
unfoldable pub provider_label : Option String → String
provider_label none = "agent_provider"
provider_label (some l) = if is_blank l then "agent_provider" else trim l

module _ {F A W : Type 0} where
  -- A `nil` provider, an error and a blank message leave the turn to the next provider.
  unfoldable pub first_answer :
      Prompt F → ℕ → List (Option (Provider F A W)) → Io W (Option (Used A))
  unfolding provider_label
  first_answer prompt index [] w = (ok none, w)
  first_answer prompt index (none ∷ providers) w = first_answer prompt (suc index) providers w
  first_answer prompt index (some p ∷ providers) w =
      let (generated, w') = p.generate prompt w in
      let rest = first_answer prompt (suc index) providers w' in
      elim generated [
        | cancelled e ↦ (err e, w')
        | failed ↦ rest
        | answered r ↦ elim (is_blank r.text) [
          | true ↦ rest
          | false ↦
              (ok (some (record { index = index; label = provider_label p.label; answer = r })), w')
        ]
      ]

  abbrev pub chain :
      Option (Provider F A W) → List (Option (Provider F A W)) → List (Option (Provider F A W))
  chain none fallbacks = fallbacks
  chain (some p) fallbacks = some p ∷ fallbacks

-- A context read that fails, whatever its error.
unfoldable pub read_context : {W A : Type 0} → String → Io W A → Io W A
read_context complaint m w =
    let (r, w') = m w in
    elim r [
      | ok a ↦ (ok a, w')
      | err e ↦ (err (wrap "agent chat context is unavailable" (message complaint)), w')
    ]

abbrev classify : {A : Type 0} → Result A → Result A
classify (ok a) = ok a
classify (err e) = err (wrap "agent chat input is invalid" e)

abbrev pub is_some : {A : Type 0} → Option A → Bool
is_some none = false
is_some (some a) = true

module _ (fl : Float64) {A : Type 0} (codec : ArgumentCodec fl.F A) where
  open fl use {F}

  abbrev withheld : String
  withheld =
      "The suggested capability was withheld because its typed contract or workflow gate was not satisfied."

  -- The warnings about the provider.
  unfoldable pub provider_warnings : Bool → Used A → List String
  provider_warnings has_primary u =
      "The agent is advisory. No business state changed in this chat."
      ∷ (if u.label == "deterministic_fallback" && has_primary
          then "Groq was unavailable for this turn; the safe deterministic guide answered instead."
            ∷ []
          else if ltb 0 u.index && u.label == "groq"
          then "The primary Groq model was unavailable; a configured fallback model answered instead."
            ∷ []
          else [])

  abbrev checked_suggestion : Result (ToolSuggestion A) → Response F A → Response F A
  checked_suggestion (ok s) r = record r { tool_suggestion = some s }
  checked_suggestion (err e) r = record r { warnings = r.warnings ++ (withheld ∷ []) }

  -- The suggestion, once the message is written.
  unfoldable pub with_suggestion :
      ChatInput → Prompt F → Option (ToolSuggestion A) → Response F A → Response F A
  with_suggestion i prompt none r = r
  with_suggestion i prompt (some s) r =
      checked_suggestion (validate_suggestion fl codec s i.guest prompt.allowed_tools) r

  unfoldable pub response_of : ChatInput → Prompt F → String → Bool → Used A → Response F A
  unfolding with_suggestion provider_warnings
  response_of i prompt conversation_id has_primary u =
      with_suggestion i prompt u.answer.tool_suggestion (record {
        conversation_id = conversation_id;
        text = limit_text u.answer.text 6000;
        provider = u.label;
        grounded = prompt.context;
        tool_suggestion = none;
        warnings = provider_warnings has_primary u;
      })

  unfoldable pub prompt_of : ChatInput → Snapshot F → Goal → Prompt F
  unfolding project_context bounded_history allowed_descriptors
  prompt_of i snapshot goal = record {
    text = trim i.text;
    current_stage = canonical_stage i.current_stage;
    history = bounded_history i.recent_messages;
    context = project_context snapshot goal;
    allowed_tools = allowed_descriptors i.current_stage i.available_tools;
    guest = i.guest;
  }

  module _ {W : Type 0} (random : Random W) (snapshots : Option (BusinessSnapshotReader F W))
      (goals : Option (GoalReader W)) (primary : Option (Provider F A W))
      (fallbacks : List (Option (Provider F A W))) where
    -- `newConversationID`, where the input names no conversation
    unfoldable pub conversation : ChatInput → Io W String
    conversation i = elim (is_blank i.conversation_id) [
      | true ↦ λ w.
          let (r, w') = fresh_id random "conversation" w in
          elim r [ ok id ↦ (ok id, w') | err e ↦ (err (wrap "create conversation id" e), w') ]
      | false ↦ lift (ok (trim i.conversation_id))
    ]

    unfoldable pub answer_with : ChatInput → Prompt F → String → Io W (Response F A)
    answer_with i prompt conversation_id = do
      used ← first_answer prompt 0 (chain primary fallbacks)
      elim used [
        | none ↦
            lift
              (err (wrap "agent chat context is unavailable" (message "agent response was empty")))
        | some u ↦ lift (ok (response_of i prompt conversation_id (is_some primary) u))
      ]

    -- `Chat`
    unfoldable pub chat : ChatInput → Io W (Response F A)
    chat i = do
      lift (classify (validate_input i))
      snapshot_reader ← required "agent chat context is unavailable" snapshots
      goal_reader ← required "agent chat context is unavailable" goals
      snapshot ←
          read_context "business context read failed"
            (snapshot_reader.get_snapshot i.organization_id i.business_id)
      goal ←
          read_context "goal context read failed"
            (goal_reader.get_goal i.organization_id i.business_id i.goal_id)
      reject
          (not (snapshot.business_id == i.business_id)
            || not (goal.business_id == i.business_id)
            || not (goal.id == i.goal_id))
          agent_context_not_found
      conversation_id ← conversation i
      answer_with i (prompt_of i snapshot goal) conversation_id
