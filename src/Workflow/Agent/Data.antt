-- ===== src/Workflow/Agent/Data.antt =====
-- internal/application/agentworkflow/service.go: what goes into a conversation and comes out of it.
use webmcp_backend.Common.{ℕ, String, Bool, Option, List, Error, message}
use webmcp_backend.Common.Int.{ℤ}
use webmcp_backend.Domain.Core.{Ident}

abbrev agent_context_unavailable : Error
agent_context_unavailable = message "agent chat context is unavailable"

abbrev pub agent_context_not_found : Error
agent_context_not_found = message "agent chat context was not found"

pub record Turn : Type 0 where
  pub role : String
  pub content : String

pub record ChatInput : Type 0 where
  pub organization_id : Ident
  pub actor_id : Ident
  pub business_id : Ident
  pub goal_id : Ident
  pub conversation_id : String
  pub text : String
  pub current_stage : String
  pub available_tools : List String
  pub recent_messages : List Turn
  pub guest : Bool

-- The arguments are a JSON object; `none` is a nil map.
pub record ToolSuggestion (A : Type 0) : Type 0 where
  pub name : String
  pub arguments : Option A
  pub reason : String
  pub risk : String

pub record MetricFact (F : Type 0) : Type 0 where
  pub key : String
  pub value : F
  pub unit : String
  pub period : String

pub record GuardrailFact : Type 0 where
  pub key : String
  pub value : String
  pub hard : Bool

pub record VerifiedContext (F : Type 0) : Type 0 where
  pub business_id : Ident
  pub business_version : ℕ
  pub product_count : ℕ
  pub active_product_count : ℕ
  pub customer_count : ℕ
  pub repeat_customer_count : ℕ
  pub order_count : ℕ
  pub revenue_cents : ℤ
  pub margin_cents : ℤ
  pub metrics : List (MetricFact F)
  pub goal_id : Ident
  pub goal_version : ℕ
  pub objective : String
  pub time_horizon_days : ℤ
  pub preference : String
  pub guardrails : List GuardrailFact

-- `RequestID` is filled in by the HTTP handler.
pub record Response (F A : Type 0) : Type 0 where
  pub conversation_id : String
  pub text : String
  pub provider : String
  pub grounded : VerifiedContext F
  pub tool_suggestion : Option (ToolSuggestion A)
  pub warnings : List String

pub record ToolDescriptor : Type 0 where
  pub name : String
  pub description : String
  pub risk : String

pub record Prompt (F : Type 0) : Type 0 where
  pub text : String
  pub current_stage : String
  pub history : List Turn
  pub context : VerifiedContext F
  pub allowed_tools : List ToolDescriptor
  pub guest : Bool

pub record ProviderResponse (A : Type 0) : Type 0 where
  pub text : String
  pub tool_suggestion : Option (ToolSuggestion A)

-- An error of `Generate` is `cancelled` where it is `context.Canceled` or
-- `context.DeadlineExceeded`.
pub data Generated (A : Type 0) : Type 0 where
  answered : ProviderResponse A → Generated A
  cancelled : Error → Generated A
  failed : Generated A

-- `label` is `none` for a provider that is no `labeledProvider`.
pub record Provider (F A W : Type 0) : Type 0 where
  pub label : Option String
  pub generate : Prompt F → W → Generated A × W

pub record ActionArguments (F : Type 0) : Type 0 where
  pub type : String
  pub target_id : String
  pub value : F
  pub unit : String

-- `encoding/json` on a tool's arguments: `strictArgs` into the structs of `validateSuggestion`,
-- `none` for an error, and the maps that it makes of the values that it has read.
pub record ArgumentCodec (F A : Type 0) : Type 1 where
  pub Raw : Type 0
  pub no_arguments : A
  pub size : A → ℕ
  pub read_focus : A → Option String
  pub read_scenario_id : A → Option String
  pub read_scenario_ids : A → Option (List String)
  pub read_scenario : A → Option (String × String × List Raw)
  pub read_action : Raw → Option (ActionArguments F)
  pub read_proposal : A → Option (String × String)
  pub read_feedback : A → Option String
  pub of_focus : String → A
  pub of_scenario_id : String → A
  pub of_scenario_ids : List String → A
  -- The type, the value and the unit of each action, which has no `target_id`.
  pub of_scenario : String → String → List (String × F × String) → A
