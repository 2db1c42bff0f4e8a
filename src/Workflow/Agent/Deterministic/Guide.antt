-- ===== src/Workflow/Agent/Deterministic/Guide.antt =====
-- internal/application/agentworkflow: the provider that answers without a model always answers, and
-- what it suggests is exposed.
use webmcp_backend.Common.{
  ◌≡◌, ◌≢◌, refl, ap, ◌∙◌, String, Bool, true, false, ◌&&◌, none, some, List, ◌==◌, string_eq,
  arith, eq_iff, if◌then◌else◌,
}
use mathlib.Core.Path.{subst}
use mathlib.Core.Option.{some-injective}
use webmcp_backend.Common.Float.{Float64}
use webmcp_backend.Common.Text.{lower_contains}
use webmcp_backend.Workflow.Agent.Data.{ToolSuggestion, Prompt, ProviderResponse, ArgumentCodec}
use webmcp_backend.Workflow.Agent.Tools.{has_name}
use webmcp_backend.Workflow.Agent.Deterministic.{
  scenario_reply, answer_to, reply, suggest, default_text, asks_decision, asks_review,
  asks_scenario, asks_evidence,
}

module _ (fl : Float64) {A : Type 0} (codec : ArgumentCodec fl.F A) where
  open fl use {F}

  -- A suggested tool is one of the names, and neither decides nor commits.
  pub record Modest (allowed : List String) (r : ProviderResponse A) : Type 0 where
    pub listed :
        (s : ToolSuggestion A) → r.tool_suggestion ≡ some s → has_name s.name allowed ≡ true
    pub no_commit :
        (s : ToolSuggestion A) → r.tool_suggestion ≡ some s → s.name ≢ "commit_approved_proposal"

  silent : (text : String) (allowed : List String) → Modest allowed (reply fl codec text none)
  silent text allowed = record {
    listed = λ s h. absurd (ground (arith, h));
    no_commit = λ s h. absurd (ground (arith, h));
  }

  is_other :
      (name : String)
      → (name == "commit_approved_proposal") ≡ false
      → name ≢ "commit_approved_proposal"
  is_other name h e = ground (arith, h, (eq_iff name "commit_approved_proposal").1 e)

  suggests :
      (text name reason : String) (args : A) (allowed : List String)
      → (name == "commit_approved_proposal") ≡ false
      → has_name name allowed ≡ true
      → Modest allowed (reply fl codec text (suggest fl codec name args reason))
  suggests text name reason args allowed other listed = record {
    listed = λ s h.
        subst (λ n. has_name n allowed ≡ true)
          (ap (λ (x : ToolSuggestion A). x.name) (some-injective _ _ h)) listed;
    no_commit = λ s h e.
        is_other name other (ap (λ (x : ToolSuggestion A). x.name) (some-injective _ _ h) ∙ e);
  }

  scenario_reply-Modest :
      (price : Bool) (allowed : List String)
      → has_name "create_scenario" allowed ≡ true
      → Modest allowed (scenario_reply fl codec price)
  unfolding scenario_reply
  scenario_reply-Modest true allowed h = suggests _ "create_scenario" _ _ allowed refl h
  scenario_reply-Modest false allowed h = suggests _ "create_scenario" _ _ allowed refl h

  if-Modest :
      (test : Bool) (allowed : List String) (r r' : ProviderResponse A)
      → (test ≡ true → Modest allowed r)
      → (test ≡ false → Modest allowed r')
      → Modest allowed (if test then r else r')
  if-Modest true allowed r r' h h' = h refl
  if-Modest false allowed r r' h h' = h' refl

  both : (a b : Bool) → (a && b) ≡ true → b ≡ true
  both a b h = ground (arith, h)

  snapshot_or_silent :
      (text reason : String) (allowed : List String)
      → Modest allowed (
          if has_name "get_business_snapshot" allowed
          then reply fl codec text
              (suggest fl codec "get_business_snapshot" codec.no_arguments reason)
          else reply fl codec default_text none)
  snapshot_or_silent text reason allowed =
      if-Modest (has_name "get_business_snapshot" allowed) allowed
        (reply fl codec text (suggest fl codec "get_business_snapshot" codec.no_arguments reason))
        (reply fl codec default_text none)
        (λ h. suggests text "get_business_snapshot" reason codec.no_arguments allowed refl h)
        (λ _. silent default_text allowed)

  -- Whatever the message asks for, the provider without a model suggests nothing but one of the
  -- tools that the prompt allows, and never the commit.
  pub answer_to-Modest :
      (prompt : Prompt F) (text : String) (allowed : List String)
      → Modest allowed (answer_to fl codec prompt text allowed)
  unfolding answer_to
  answer_to-Modest prompt text allowed =
      if-Modest (asks_decision text) allowed _ _ (λ _. silent _ allowed)
        (λ _.
          if-Modest (asks_review text && has_name "request_human_review" allowed) allowed _ _
            (λ h. suggests _ "request_human_review" _ _ allowed refl (both (asks_review text) _ h))
            (λ _.
              if-Modest (asks_scenario text && has_name "create_scenario" allowed) allowed _ _
                (λ h.
                  scenario_reply-Modest (lower_contains text "price") allowed
                    (both (asks_scenario text) _ h))
                (λ _.
                  if-Modest (asks_evidence text) allowed _ _
                    (λ _.
                      if-Modest (has_name "analyze_business" allowed) allowed _ _
                        (λ h. suggests _ "analyze_business" _ _ allowed refl h)
                        (λ _. snapshot_or_silent _ _ allowed))
                    (λ _. snapshot_or_silent _ _ allowed))))
