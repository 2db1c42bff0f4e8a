-- ===== src/Examples/Agent.antt =====
-- The theorems on the agent's conversation, at a concrete turn.
use webmcp_backend.Common.{
  arith, ℕ, ◌≡◌, refl, String, true, false, Option, none, some, List, [], ◌∷◌, length, find?, ◌==◌,
  string_eq,
}
use webmcp_backend.Common.Text.{trim, trim_left, trim_right, is_space, is_blank, lower_contains}
use webmcp_backend.Common.Text.Runes.{rune_count, take_runes, limit_text}
use webmcp_backend.Common.Int.{ℤ}
use webmcp_backend.Common.Io.{◌>>=◌, lift, reject}
use webmcp_backend.Common.Io.Laws.{Returns}
use webmcp_backend.Domain.Core.{validate_id, validate_ids}
use webmcp_backend.Workflow.Ports.{required}
use webmcp_backend.Workflow.Agent.Data.{
  ChatInput, Response, Prompt, Provider, ArgumentCodec, failed,
}
use webmcp_backend.Workflow.Agent.Tools.{
  canonical_stage, stage_tool_names, registered, allowed_descriptors,
}
use webmcp_backend.Workflow.Agent.Context.{
  validate_input, validate_tool_name, validate_turn, project_context, drop_turns, bounded_history,
}
use webmcp_backend.Workflow.Agent.Context.Bounds.{Bounded, prompt_of-Bounded}
use webmcp_backend.Workflow.Agent.Chat.{
  Used, provider_label, first_answer, read_context, response_of, prompt_of, conversation,
  answer_with, chat,
}
use webmcp_backend.Workflow.Agent.Chat.Answers.{Answered, chat-Answered}
use webmcp_backend.Workflow.Agent.Chat.Chain.{Steady, used, first_answer-Returns}
use webmcp_backend.Workflow.Agent.Deterministic.{answer_to, deterministic}
use webmcp_backend.Workflow.Agent.Deterministic.Guide.{Modest, answer_to-Modest}
use webmcp_backend.Workflow.Agent.Deterministic.Total.{deterministic-Answers}
use webmcp_backend.Examples.Numbers.{whole_numbers}
use webmcp_backend.Examples.Data.{a_snapshot, a_goal}
use webmcp_backend.Examples.Ports.{always, the_snapshots, the_goals}

abbrev Arguments : Type 0
Arguments = List (String × String)

abbrev field : String → Arguments → Option String
field key args = elim (find? (λ p. p.0 == key) args) [ none ↦ none | some p ↦ some p.1 ]

-- Arguments that are flat maps of texts; it reads no scenario.
abbrev flat_arguments : ArgumentCodec ℤ Arguments
flat_arguments = record {
  Raw = Unit;
  no_arguments = [];
  size = length;
  read_focus = field "focus";
  read_scenario_id = field "scenario_id";
  read_scenario_ids = λ _. none;
  read_scenario = λ _. none;
  read_action = λ _. none;
  read_proposal = λ _. none;
  read_feedback = field "feedback";
  of_focus = λ f. ("focus", f) ∷ [];
  of_scenario_id = λ id. ("scenario_id", id) ∷ [];
  of_scenario_ids = λ _. [];
  of_scenario = λ name _ _. ("name", name) ∷ [];
}

abbrev a_chat : ChatInput
a_chat = record {
  organization_id = "org";
  actor_id = "ann";
  business_id = "shop";
  goal_id = "goal-1";
  conversation_id = "talk-1";
  text = "any growth?";
  current_stage = "explore";
  available_tools = "analyze_business" ∷ [];
  recent_messages = record { role = "user"; content = "hello" } ∷ [];
  guest = false;
}

abbrev a_prompt : Prompt ℤ
a_prompt = prompt_of whole_numbers flat_arguments a_chat a_snapshot a_goal

abbrev an_answer : Used Arguments
an_answer =
    used 0 (some "deterministic_fallback")
      (answer_to whole_numbers flat_arguments a_prompt "any growth?" ("analyze_business" ∷ []))

abbrev a_response : Response ℤ Arguments
a_response = response_of whole_numbers flat_arguments a_chat a_prompt "talk-1" true an_answer

it_answers :
    Returns
      (chat whole_numbers flat_arguments always the_snapshots the_goals
        (some (deterministic whole_numbers flat_arguments))
        []
        a_chat)
      0
      a_response
      0
unfolding chat validate_input validate_tool_name validate_turn validate_ids validate_id required
    read_context conversation answer_with first_answer provider_label deterministic answer_to
    prompt_of project_context bounded_history drop_turns allowed_descriptors registered
    stage_tool_names canonical_stage lower_contains rune_count take_runes limit_text trim trim_left
    trim_right is_space ◌>>=◌ lift reject
it_answers = refl

chat-Answered_example :
    Answered whole_numbers flat_arguments always the_snapshots the_goals
      (some (deterministic whole_numbers flat_arguments))
      []
      a_chat
      a_response
chat-Answered_example =
    chat-Answered whole_numbers flat_arguments always the_snapshots the_goals
      (some (deterministic whole_numbers flat_arguments)) [] a_chat a_response 0 0 it_answers

prompt_of-Bounded_example : Bounded a_prompt
prompt_of-Bounded_example = prompt_of-Bounded whole_numbers flat_arguments a_chat a_snapshot a_goal

answer_to-Modest_example :
    Modest whole_numbers flat_arguments ("analyze_business" ∷ []) an_answer.answer
answer_to-Modest_example =
    answer_to-Modest whole_numbers flat_arguments a_prompt "any growth?" ("analyze_business" ∷ [])

-- A model that is out of reach.
abbrev unreachable : Provider ℤ Arguments ℕ
unreachable = record { label = some "groq"; generate = λ prompt w. (failed, w) }

unreachable-Steady : Steady (some unreachable)
unreachable-Steady prompt w e h = ground (arith, h)

first_answer-Returns_example :
    (u : Used Arguments) × (w' : ℕ) × Returns
      (first_answer a_prompt 0
        (some unreachable ∷ some (deterministic whole_numbers flat_arguments) ∷ []))
      0
      (some u)
      w'
    × (is_blank u.answer.text ≡ false)
first_answer-Returns_example =
    first_answer-Returns a_prompt 0 (some unreachable ∷ [])
      (deterministic whole_numbers flat_arguments) 0 (unreachable-Steady, tt)
      (deterministic-Answers whole_numbers flat_arguments)
