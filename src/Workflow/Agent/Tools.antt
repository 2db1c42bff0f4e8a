-- ===== src/Workflow/Agent/Tools.antt =====
-- internal/application/agentworkflow/service.go: the tools that a stage of the work exposes.
use webmcp_backend.Common.{
  String, Bool, List, [], ◌∷◌, ◌==◌, string_eq, any, map, filter, if◌then◌else◌,
}
use webmcp_backend.Common.Text.{trim}
use webmcp_backend.Workflow.Agent.Data.{ToolDescriptor}

-- `_, ok := set[name]`, for a set of names
abbrev pub has_name : String → List String → Bool
has_name name names = any (λ n. n == name) names

abbrev stages : List String
stages = "investigate" ∷ "explore" ∷ "collaborate" ∷ "review" ∷ "approved" ∷ []

-- `canonicalStage`
unfoldable pub canonical_stage : String → String
canonical_stage stage = if has_name (trim stage) stages then trim stage else "orient"

-- `stageToolNames`
unfoldable pub stage_tool_names : String → List String
unfolding canonical_stage
stage_tool_names stage =
    let s = canonical_stage stage in
    if s == "investigate"
    then "get_business_snapshot" ∷ "analyze_business" ∷ []
    else if s == "explore"
    then "get_business_snapshot" ∷ "analyze_business" ∷ "create_scenario" ∷ "run_scenario"
      ∷ "compare_scenarios" ∷ "draft_proposal" ∷ []
    else if s == "collaborate"
    then "get_business_snapshot" ∷ "revise_proposal" ∷ []
    else if s == "review"
    then "get_business_snapshot" ∷ "request_human_review" ∷ []
    else if s == "approved"
    then "get_business_snapshot" ∷ "commit_approved_proposal" ∷ "verify_committed_result" ∷ []
    else "get_business_snapshot" ∷ []

-- `toolDescription`
unfoldable pub tool_description : String → String
tool_description name =
    if name == "get_business_snapshot"
    then "Read the authoritative business pulse for the open workspace."
    else if name == "analyze_business"
    then "Analyze verified business evidence for the current human goal."
    else if name == "create_scenario"
    then "Create a bounded non-canonical strategic alternative."
    else if name == "run_scenario"
    then "Run deterministic simulation without changing canonical state."
    else if name == "compare_scenarios"
    then "Compare simulated alternatives and their trade-offs."
    else if name == "draft_proposal"
    then "Create a reviewable proposal from a simulated scenario."
    else if name == "revise_proposal"
    then "Apply human feedback to a working proposal version."
    else if name == "request_human_review"
    then "Submit the current proposal for explicit human review."
    else if name == "verify_committed_result"
    then "Read back the authoritative state after a commit."
    else "Typed business workspace capability."

-- `toolRisk`
unfoldable pub tool_risk : String → String
tool_risk name =
    if has_name name
      ("create_scenario" ∷ "run_scenario" ∷ "draft_proposal" ∷ "revise_proposal" ∷ [])
    then "non_canonical"
    else if name == "request_human_review"
    then "human_gate"
    else "read_only"

abbrev pub descriptor_of : String → ToolDescriptor
descriptor_of name = record {
  name = name;
  description = tool_description name;
  risk = tool_risk name;
}

-- The names that a registry of available tools leaves: all of them, if it is empty.
unfoldable pub registered : List String → List String → List String
registered [] names = names
registered (a ∷ available) names = filter (λ name. has_name name (map trim (a ∷ available))) names

-- `allowedDescriptors`
unfoldable pub allowed_descriptors : String → List String → List ToolDescriptor
unfolding registered
allowed_descriptors stage available =
    map descriptor_of (registered available (stage_tool_names (canonical_stage stage)))
