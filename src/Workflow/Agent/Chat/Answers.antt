-- ===== src/Workflow/Agent/Chat/Answers.antt =====
-- internal/application/agentworkflow/service.go: what a turn of the conversation answers.
use webmcp_backend.Common.{
  ◌≡◌, ◌≤◌, refl, String, Bool, false, not, ◌||◌, Option, none, some, List, ◌==◌, string_eq, arith,
  eq_iff, ok, err, Result-cases, inl, inr, ok-injective, wrap, message,
}
use mathlib.Core.Path.{subst}
use webmcp_backend.Common.Float.{Float64}
use webmcp_backend.Common.Io.{Io, lift}
use webmcp_backend.Common.Io.Laws.{Returns, bind-Returns, lift-Returns, reject-Returns}
use webmcp_backend.Common.Text.Runes.{rune_count, limit_text, rune_count-limit_text}
use webmcp_backend.Domain.Business.{Snapshot}
use webmcp_backend.Domain.Planning.{Goal}
use webmcp_backend.Workflow.Ports.{BusinessSnapshotReader, GoalReader, Random}
use webmcp_backend.Workflow.Ports.Laws.{required-Returns}
use webmcp_backend.Workflow.Agent.Data.{
  ChatInput, ToolSuggestion, Response, Provider, ArgumentCodec,
}
use webmcp_backend.Workflow.Agent.Tools.{allowed_descriptors}
use webmcp_backend.Workflow.Agent.Context.{project_context}
use webmcp_backend.Workflow.Agent.Suggestions.{validate_suggestion}
use webmcp_backend.Workflow.Agent.Suggestions.Safe.{Safe, validate_suggestion-Safe}
use webmcp_backend.Workflow.Agent.Chat.{
  Used, read_context, provider_warnings, with_suggestion, response_of, prompt_of, answer_with, chat,
  is_some,
}

read_context-Returns :
    {W A : Type 0} (complaint : String) (m : Io W A) (w w' : W) (a : A)
    → Returns (read_context complaint m) w a w'
    → Returns m w a w'
unfolding read_context
read_context-Returns complaint m w w' a h = elim (Result-cases (m w).0) [
  | inl (b, e) ↦ ground (arith, e, h)
  | inr (x, e) ↦ absurd (ground (arith, e, h))
]

module _ (fl : Float64) {A : Type 0} (codec : ArgumentCodec fl.F A) where
  open fl use {F}

  -- A response about a business and a goal: it is grounded in them, and a suggestion in it is safe.
  pub record Grounded (i : ChatInput) (snapshot : Snapshot F) (goal : Goal) (r : Response F A)
      : Type 0 where
    pub grounded : r.grounded ≡ project_context snapshot goal
    pub short : rune_count r.text ≤ 6000
    pub safe :
        (s : ToolSuggestion A)
        → r.tool_suggestion ≡ some s
        → Safe i.current_stage i.available_tools s

  with_suggestion-Grounded :
      (i : ChatInput) (snapshot : Snapshot F) (goal : Goal) (suggestion : Option (ToolSuggestion A))
      (r : Response F A)
      → r.tool_suggestion ≡ none
      → Grounded i snapshot goal r
      → Grounded i snapshot goal
          (with_suggestion fl codec i (prompt_of fl codec i snapshot goal) suggestion r)
  unfolding with_suggestion prompt_of
  with_suggestion-Grounded i snapshot goal none r nothing g = g
  with_suggestion-Grounded i snapshot goal (some s) r nothing g =
      elim (Result-cases (
        validate_suggestion fl codec s i.guest
          (allowed_descriptors i.current_stage i.available_tools))) [
            | inl (s', e) ↦ record {
              grounded = ground (arith, e, g.grounded);
              short = ground (arith, e, g.short);
              safe = λ found h.
                  subst (Safe i.current_stage i.available_tools) (ground (arith, e, h)) (
                    validate_suggestion-Safe fl codec s s' i.guest i.current_stage i.available_tools
                      e);
            }
            | inr (x, e) ↦ record {
              grounded = ground (arith, e, g.grounded);
              short = ground (arith, e, g.short);
              safe = λ found h. absurd (ground (arith, e, h, nothing));
            }
          ]

  response_of-Grounded :
      (i : ChatInput) (snapshot : Snapshot F) (goal : Goal) (id : String) (has_primary : Bool)
      (u : Used A)
      → Grounded i snapshot goal
          (response_of fl codec i (prompt_of fl codec i snapshot goal) id has_primary u)
  unfolding response_of prompt_of
  response_of-Grounded i snapshot goal id has_primary u =
      with_suggestion-Grounded i snapshot goal u.answer.tool_suggestion
        (record {
          conversation_id = id;
          text = limit_text u.answer.text 6000;
          provider = u.label;
          grounded = project_context snapshot goal;
          tool_suggestion = none;
          warnings = provider_warnings fl codec has_primary u;
        })
        refl
        (record {
          grounded = refl;
          short = rune_count-limit_text u.answer.text 6000;
          safe = λ s h. absurd (ground (arith, h));
        })

  module _ {W : Type 0} (random : Random W) (snapshots : Option (BusinessSnapshotReader F W))
      (goals : Option (GoalReader W)) (primary : Option (Provider F A W))
      (fallbacks : List (Option (Provider F A W))) where
    answer_with-Grounded :
        (i : ChatInput) (snapshot : Snapshot F) (goal : Goal) (id : String) (r : Response F A)
        (w w' : W)
        → Returns
            (answer_with fl codec random snapshots goals primary fallbacks i
              (prompt_of fl codec i snapshot goal)
              id)
            w
            r
            w'
        → Grounded i snapshot goal r
    unfolding answer_with
    answer_with-Grounded i snapshot goal id r w w' h =
        let (used, w1, _, k1) = bind-Returns _ _ w w' r h in by_use used w1 k1
      where
        by_use :
            (used : Option (Used A)) (w1 : W)
            → Returns
                (elim used [
                  | none ↦ lift (
                      err (
                        wrap "agent chat context is unavailable"
                          (message "agent response was empty")))
                  | some u ↦ lift (
                      ok (
                        response_of fl codec i
                          (prompt_of fl codec i snapshot goal)
                          id
                          (is_some primary)
                          u))
                ])
                w1
                r
                w'
            → Grounded i snapshot goal r
        by_use none w1 k = absurd (ground (arith, (lift-Returns _ w1 w' r k).0))
        by_use (some u) w1 k =
            subst (Grounded i snapshot goal) (ok-injective (lift-Returns _ w1 w' r k).0)
              (response_of-Grounded i snapshot goal id (is_some primary) u)

    pub record Answered (i : ChatInput) (r : Response F A) : Type 0 where
      pub snapshot_reader : BusinessSnapshotReader F W
      pub goal_reader : GoalReader W
      pub wired : (snapshots ≡ some snapshot_reader) × (goals ≡ some goal_reader)
      pub snapshot : Snapshot F
      pub goal : Goal
      pub read_snapshot :
          (w : W) × (w' : W) × Returns
            (snapshot_reader.get_snapshot i.organization_id i.business_id)
            w
            snapshot
            w'
      pub read_goal :
          (w : W) × (w' : W) × Returns
            (goal_reader.get_goal i.organization_id i.business_id i.goal_id)
            w
            goal
            w'
      pub same_business :
          (snapshot.business_id ≡ i.business_id) × (goal.business_id ≡ i.business_id)
      pub same_goal : goal.id ≡ i.goal_id
      pub answer : Grounded i snapshot goal r

    -- A turn that is answered has read a snapshot and a goal of the input's business, and that
    -- goal; the response is grounded in them, has a message of at most 6000 runes, and suggests,
    -- if anything, a tool that the stage exposes, that is available, and that is not the commit.
    pub chat-Answered :
        (i : ChatInput) (r : Response F A) (w w' : W)
        → Returns (chat fl codec random snapshots goals primary fallbacks i) w r w'
        → Answered i r
    unfolding chat
    chat-Answered i r w w' h =
        let (_, w1, h1, k1) = bind-Returns _ _ w w' r h in
        let (sr, w2, h2, k2) = bind-Returns _ _ w1 w' r k1 in
        let (gr, w3, h3, k3) = bind-Returns _ _ w2 w' r k2 in
        let (snapshot, w4, h4, k4) = bind-Returns _ _ w3 w' r k3 in
        let (goal, w5, h5, k5) = bind-Returns _ _ w4 w' r k4 in
        let (_, w6, h6, k6) = bind-Returns _ _ w5 w' r k5 in
        let (id, w7, h7, k7) = bind-Returns _ _ w6 w' r k6 in
        let (wired, _) = required-Returns _ snapshots w1 w2 sr h2 in
        let (wired', _) = required-Returns _ goals w2 w3 gr h3 in
        let (g6, _) = reject-Returns _ _ w5 w6 _ h6 in
        let (a, b, c) = guard snapshot goal g6 in
        record {
          snapshot_reader = sr;
          goal_reader = gr;
          wired = (wired, wired');
          snapshot = snapshot;
          goal = goal;
          read_snapshot = (w3, w4, read_context-Returns _ _ w3 w4 snapshot h4);
          read_goal = (w4, w5, read_context-Returns _ _ w4 w5 goal h5);
          same_business = (a, b);
          same_goal = c;
          answer = answer_with-Grounded i snapshot goal id r w7 w' k7;
        }
      where
        guard :
            (snapshot : Snapshot F) (goal : Goal)
            → (not (snapshot.business_id == i.business_id)
                || not (goal.business_id == i.business_id)
                || not (goal.id == i.goal_id))
              ≡ false
            → (snapshot.business_id ≡ i.business_id)
              × (goal.business_id ≡ i.business_id)
              × (goal.id ≡ i.goal_id)
        guard snapshot goal g = (
          ground (arith, g, eq_iff snapshot.business_id i.business_id),
          ground (arith, g, eq_iff goal.business_id i.business_id),
          ground (arith, g, eq_iff goal.id i.goal_id),
        )
