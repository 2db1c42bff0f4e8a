-- ===== src/Workflow/Agent/Deterministic/Total.antt =====
-- internal/application/agentworkflow/deterministic.go: the provider without a model has a message for
-- every prompt.
use Prim.Native.Char.{Char, code}
use Prim.Native.String.{◌∷◌, ◌++◌ as append}
use Prim.Native.String.append.{cons}
use webmcp_backend.Common.{
  ◌≡◌, refl, ap, ◌∙◌, arith, String, Bool, true, false, ◌&&◌, List, map, if◌then◌else◌,
}
use webmcp_backend.Common.Float.{Float64}
use webmcp_backend.Common.Text.{trim, trim_left, trim_right, is_space, is_blank, lower_contains}
use webmcp_backend.Common.Text.Decimal.{decimal}
use webmcp_backend.Workflow.Agent.Data.{Prompt, ProviderResponse, ArgumentCodec}
use webmcp_backend.Workflow.Agent.Tools.{has_name}
use webmcp_backend.Workflow.Agent.Chat.Chain.{Answers}
use webmcp_backend.Workflow.Agent.Deterministic.{
  scenario_reply, answer_to, deterministic, default_text, asks_decision, asks_review, asks_scenario,
  asks_evidence,
}

-- A text that begins with a character that is no space is not blank, whatever follows.
said :
    (c : Char) (s rest : String)
    → is_space (code c) ≡ false
    → is_blank (append (c ∷ s) rest) ≡ false
unfolding trim trim_left trim_right
said c s rest visible = ap is_blank (cons c s rest) ∙ ground (arith, visible)

grounded_text :
    (rest : String)
    → is_blank (append "The workspace is grounded at business version " rest) ≡ false
unfolding is_space
grounded_text rest = said _ "he workspace is grounded at business version " rest refl

module _ (fl : Float64) {A : Type 0} (codec : ArgumentCodec fl.F A) where
  open fl use {F}

  if-said :
      (test : Bool) (r r' : ProviderResponse A)
      → is_blank r.text ≡ false
      → is_blank r'.text ≡ false
      → is_blank (if test then r else r').text ≡ false
  if-said true r r' h h' = h
  if-said false r r' h h' = h'

  scenario_said : (price : Bool) → is_blank (scenario_reply fl codec price).text ≡ false
  unfolding scenario_reply trim trim_left trim_right is_space
  scenario_said true = refl
  scenario_said false = refl

  default_said : is_blank default_text ≡ false
  unfolding trim trim_left trim_right is_space
  default_said = refl

  answer_said :
      (prompt : Prompt F) (text : String) (allowed : List String)
      → is_blank (answer_to fl codec prompt text allowed).text ≡ false
  unfolding answer_to trim trim_left trim_right is_space
  answer_said prompt text allowed = if-said (asks_decision text) _ _ refl (
      if-said (asks_review text && has_name "request_human_review" allowed) _ _ refl (
        if-said (asks_scenario text && has_name "create_scenario" allowed) _ _
          (scenario_said (lower_contains text "price"))
          (if-said (asks_evidence text) _ _
            (if-said (has_name "analyze_business" allowed) _ _ refl
              (if-said (has_name "get_business_snapshot" allowed) _ _ refl refl))
            (if-said (has_name "get_business_snapshot" allowed) _ _
              (grounded_text (
                append (decimal prompt.context.business_version)
                  ". I can read the business pulse, investigate evidence, compare bounded scenarios, and prepare a proposal while you retain approval and commit authority."))
              refl))))

  -- The provider without a model answers every prompt, with a message that is not blank.
  pub deterministic-Answers : {W : Type 0} → Answers (deterministic fl codec {W = W})
  unfolding deterministic
  deterministic-Answers prompt w = (
    answer_to fl codec prompt (trim prompt.text) (map (λ d. d.name) prompt.allowed_tools),
    w,
    refl,
    answer_said prompt (trim prompt.text) (map (λ d. d.name) prompt.allowed_tools),
  )
