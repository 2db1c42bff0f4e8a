-- ===== src/Workflow/Agent/Suggestions/Safe.antt =====
-- internal/application/agentworkflow/service.go: what a suggestion that passes the check can be.
use webmcp_backend.Common.{
  ◌≡◌, ◌≢◌, ◌≤◌, ◌⊎◌, inl, inr, refl, sym, ap, ◌∙◌, String, Bool, true, false, not, ◌||◌, some,
  List, [], ◌∷◌, ◌==◌, string_eq, nat_eq, filter, map, arith, eq_iff, Bool-cases, Result, ok, err,
  leb→le, ◌>>=◌, reject-then, ok-injective, Option,
}
use mathlib.Core.Path.{subst}
use webmcp_backend.Common.Float.{Float64}
use webmcp_backend.Common.Text.{trim, is_empty}
use webmcp_backend.Common.Text.Runes.{rune_count, limit_text, rune_count-limit_text}
use webmcp_backend.Workflow.Agent.Data.{ToolSuggestion, ArgumentCodec}
use webmcp_backend.Workflow.Agent.Tools.{
  has_name, canonical_stage, stage_tool_names, tool_risk, descriptor_of, registered,
  allowed_descriptors,
}
use webmcp_backend.Workflow.Agent.Suggestions.{
  checked_arguments, given, reason_or_default, finish_suggestion, validate_suggestion,
}

has_name-filter :
    (p : String → Bool) (name : String) (names : List String)
    → has_name name (filter p names) ≡ true
    → (has_name name names ≡ true) × (p name ≡ true)
has_name-filter p name [] h = absurd (ground arith)
has_name-filter p name (n ∷ names) h = elim (Bool-cases (p n)) [
  | inl kept ↦ elim (Bool-cases (n == name)) [
    | inl here ↦ (ground (arith, here), subst (λ x. p x ≡ true) ((eq_iff n name).0 here) kept)
    | inr there ↦
        let (a, b) = has_name-filter p name names (ground (arith, kept, there, h)) in
        (ground (arith, a), b)
  ]
  | inr dropped ↦
      let (a, b) = has_name-filter p name names (ground (arith, dropped, h)) in
      (ground (arith, a), b)
]

names-descriptors : (names : List String) → map (λ d. d.name) (map descriptor_of names) ≡ names
names-descriptors [] = refl
names-descriptors (n ∷ names) = ap (λ ns. n ∷ ns) (names-descriptors names)

-- A name that the descriptors have is a tool of the stage, and registered, if anything is.
allowed_names :
    (stage name : String) (available : List String)
    → has_name name (map (λ d. d.name) (allowed_descriptors stage available)) ≡ true
    → (has_name name (stage_tool_names (canonical_stage stage)) ≡ true)
      × ((available ≡ []) ⊎ (has_name name (map trim available) ≡ true))
unfolding allowed_descriptors registered
allowed_names stage name [] h = (
  ap (has_name name) (sym (names-descriptors (stage_tool_names (canonical_stage stage)))) ∙ h,
  inl refl,
)
allowed_names stage name (a ∷ available) h =
    let p : String → Bool = λ n. has_name n (map trim (a ∷ available)) in
    let names = stage_tool_names (canonical_stage stage) in
    let (exposed, listed) =
      has_name-filter p name names
        (ap (has_name name) (sym (names-descriptors (filter p names))) ∙ h) in
    (exposed, inr listed)

default_reason_short : rune_count "This typed capability matches the current workflow stage." ≤ 500
unfolding rune_count
default_reason_short =
    leb→le (rune_count "This typed capability matches the current workflow stage.") 500 refl

reason_short : (reason : String) → rune_count (reason_or_default (limit_text reason 500)) ≤ 500
reason_short reason = elim (Bool-cases (is_empty (limit_text reason 500))) [
  | inl empty ↦ ground (arith, empty, default_reason_short)
  | inr nonempty ↦ ground (arith, nonempty, rune_count-limit_text reason 500)
]

pub record Safe {A : Type 0} (stage : String) (available : List String) (s : ToolSuggestion A)
    : Type 0 where
  pub exposed : has_name s.name (stage_tool_names (canonical_stage stage)) ≡ true
  pub listed : (available ≡ []) ⊎ (has_name s.name (map trim available) ≡ true)
  pub no_commit : s.name ≢ "commit_approved_proposal"
  pub risk : s.risk ≡ tool_risk s.name
  pub reason : rune_count s.reason ≤ 500

-- The suggestion that a check builds.
named :
    {A : Type 0} (name reason : String) (args : Option A) (stage : String) (available : List String)
    → rune_count reason ≤ 500
    → (is_empty name || name == "commit_approved_proposal") ≡ false
    → (has_name name (stage_tool_names (canonical_stage stage)) ≡ true)
      × ((available ≡ []) ⊎ (has_name name (map trim available) ≡ true))
    → Safe stage available
        (record { name = name; arguments = args; reason = reason; risk = tool_risk name })
named name reason args stage available short allowed (exposed, listed) = record {
  exposed = exposed;
  listed = listed;
  no_commit = λ e. ground (arith, allowed, eq_iff name "commit_approved_proposal", e);
  risk = refl;
  reason = short;
}

module _ (fl : Float64) {A : Type 0} (codec : ArgumentCodec fl.F A) where
  finish_suggestion_lem :
      (s s' : ToolSuggestion A) (guest : Bool) (args : A)
      → finish_suggestion fl codec s guest args ≡ ok s'
      → record {
        name = trim s.name;
        arguments = some args;
        reason = reason_or_default (limit_text s.reason 500);
        risk = tool_risk (trim s.name);
      }
        ≡ s'
  unfolding finish_suggestion
  finish_suggestion_lem s s' guest args h = ok-injective (reject-then _ _ _ s' h).1

  kept_arguments :
      (s s' : ToolSuggestion A) (guest : Bool) (kept : Result A)
      → (kept >>= finish_suggestion fl codec s guest) ≡ ok s'
      → (args : A) × (finish_suggestion fl codec s guest args ≡ ok s')
  kept_arguments s s' guest (ok args) h = (args, h)
  kept_arguments s s' guest (err e) h = absurd (ground (arith, h))

  -- A suggestion that passes the check against a stage's descriptors names a tool of the stage,
  -- one of the available tools where any are named, and not the commit; it has that tool's risk
  -- and a reason of at most 500 runes.
  pub validate_suggestion-Safe :
      (s s' : ToolSuggestion A) (guest : Bool) (stage : String) (available : List String)
      → validate_suggestion fl codec s guest (allowed_descriptors stage available) ≡ ok s'
      → Safe stage available s'
  unfolding validate_suggestion
  validate_suggestion-Safe s s' guest stage available h =
      let (g1, k1) = reject-then _ _ _ s' h in
      let (g2, k2) = reject-then _ _ _ s' k1 in
      let (args, k3) =
        kept_arguments s s' guest
          (checked_arguments fl codec (trim s.name) (given fl codec s.arguments)) k2 in
      subst (Safe stage available) (finish_suggestion_lem s s' guest args k3) (
        named (trim s.name) (reason_or_default (limit_text s.reason 500)) (some args) stage
          available (reason_short s.reason) g1
          (allowed_names stage (trim s.name) available (passed _ g2)))
    where
      passed : (b : Bool) → not b ≡ false → b ≡ true
      passed b h = ground (arith, h)
