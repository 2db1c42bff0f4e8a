-- ===== src/Http/Handlers/Requests.antt =====
-- internal/httpapi/api_handlers.go: the bodies of the requests, and what is read of them.
use webmcp_backend.Common.{String, Bool, not, ◌&&◌, ◌==◌, string_eq, if◌then◌else◌, List}
use webmcp_backend.Common.Text.{trim}
use webmcp_backend.Domain.Approval
use webmcp_backend.Domain.Approval.{status_eq}
use webmcp_backend.Domain.Scenario.{Action}
use webmcp_backend.Auth.Principal.{Principal, guest_allows}

pub record AnalyzeBusinessRequest : Type 0 where
  pub business_id : String
  pub goal_id : String
  pub focus : String

pub record ConstraintRequest : Type 0 where
  pub key : String
  pub value : String
  pub hard : Bool

pub record CreateScenarioRequest (F : Type 0) : Type 0 where
  pub business_id : String
  pub goal_id : String
  pub name : String
  pub objective : String
  pub proposed_actions : List (Action F)

pub record CompareScenariosRequest : Type 0 where
  pub business_id : String
  pub scenario_ids : List String

pub record CreateProposalRequest : Type 0 where
  pub business_id : String
  pub goal_id : String
  pub scenario_id : String
  pub summary : String

pub record ReviseProposalRequest : Type 0 where
  pub feedback : String
  pub business_id : String

pub record ApprovalDecisionRequest : Type 0 where
  pub business_id : String
  pub proposal_version_id : String
  pub decision : String
  pub reason : String

-- `!principal.GuestAllows(...)`, of a business and of a business and a goal
abbrev pub outside_business : Principal → String → Bool
outside_business p business_id = not (guest_allows p (trim business_id) "")

abbrev pub outside_goal : Principal → String → String → Bool
outside_goal p business_id goal_id = not (guest_allows p (trim business_id) (trim goal_id))

-- `approval.Status(s)`
abbrev pub status_of : String → Approval.Status
status_of s =
    if s == "pending"
    then Approval.Status.pending
    else if s == "approved"
    then Approval.Status.approved
    else if s == "rejected"
    then Approval.Status.rejected
    else if s == "expired"
    then Approval.Status.expired
    else if s == "revoked"
    then Approval.Status.revoked
    else Approval.Status.other s

abbrev pub not_decisive : Approval.Status → Bool
not_decisive s = not (s == Approval.Status.approved) && not (s == Approval.Status.rejected)
