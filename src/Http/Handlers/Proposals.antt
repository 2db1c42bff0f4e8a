-- ===== src/Http/Handlers/Proposals.antt =====
-- internal/httpapi/api_handlers.go: the handlers of proposals and of decisions.
use webmcp_backend.Common.{String, not, string_eq, Error}
use webmcp_backend.Common.Text.{trim}
use webmcp_backend.Domain.Core.{Ident}
use webmcp_backend.Domain.Approval.{status_eq}
use webmcp_backend.Auth.Principal.{can_approve}
use webmcp_backend.Workflow.Proposals
use webmcp_backend.Workflow.Proposals.{ReviseInput, ReviewInput}
use webmcp_backend.Workflow.Approvals.{DecisionInput}
use webmcp_backend.Http.Replies.{reply, scope_forbidden, proposal_error, approval_error}
use webmcp_backend.Http.Gates.{Gate}
use webmcp_backend.Http.Gates.Scope.{may_not_operate}
use webmcp_backend.Http.Handlers.Requests.{
  CreateProposalRequest, ReviseProposalRequest, ApprovalDecisionRequest, outside_business,
  outside_goal, status_of, not_decisive,
}

module _ (text : Error → String) (request_id : String) where
  -- `createProposal`
  unfoldable pub create_proposal : Gate CreateProposalRequest Proposals.CreateInput
  create_proposal = record {
    forbidden = may_not_operate;
    forbidden_reply = reply 403 "proposal_forbidden" "the current role cannot create a proposal";
    unavailable_reply = reply 503 "proposal_unavailable" "proposal service is unavailable";
    body_code = "invalid_proposal_request";
    outside = λ p r. outside_goal p r.business_id r.goal_id;
    outside_reply = scope_forbidden "guest demo is limited to its configured business and goal";
    input = λ p r. record {
      organization_id = p.organization_id;
      actor_id = p.user_id;
      business_id = trim r.business_id;
      goal_id = trim r.goal_id;
      scenario_id = trim r.scenario_id;
      summary = r.summary;
      request_id = request_id;
    };
    on_error = proposal_error text;
    status = 201;
  }

  -- `reviseProposal`, of the proposal in its path
  unfoldable pub revise_proposal : Ident → Gate ReviseProposalRequest ReviseInput
  revise_proposal proposal_id = record {
    forbidden = may_not_operate;
    forbidden_reply = reply 403 "proposal_forbidden" "the current role cannot revise a proposal";
    unavailable_reply = reply 503 "proposal_unavailable" "proposal service is unavailable";
    body_code = "invalid_revision_request";
    outside = λ p r. outside_business p r.business_id;
    outside_reply = scope_forbidden "guest demo is limited to its configured business";
    input = λ p r. record {
      organization_id = p.organization_id;
      actor_id = p.user_id;
      business_id = trim r.business_id;
      proposal_id = proposal_id;
      feedback = r.feedback;
      request_id = request_id;
    };
    on_error = proposal_error text;
    status = 200;
  }

  -- `requestHumanReview`, of the proposal in its path; the body is the business.
  unfoldable pub request_human_review : Ident → Gate String ReviewInput
  request_human_review proposal_id = record {
    forbidden = may_not_operate;
    forbidden_reply = reply 403 "proposal_forbidden" "the current role cannot request human review";
    unavailable_reply = reply 503 "proposal_unavailable" "proposal service is unavailable";
    body_code = "invalid_review_request";
    outside = λ p business_id. outside_business p business_id;
    outside_reply = scope_forbidden "guest demo is limited to its configured business";
    input = λ p business_id. record {
      organization_id = p.organization_id;
      actor_id = p.user_id;
      business_id = trim business_id;
      proposal_id = proposal_id;
      request_id = request_id;
    };
    on_error = proposal_error text;
    status = 200;
  }

  -- `decideApproval`, of the proposal in its path: the last check is that of the decision.
  unfoldable pub decide_approval : Ident → Gate ApprovalDecisionRequest DecisionInput
  decide_approval proposal_id = record {
    forbidden = λ p. not (can_approve p);
    forbidden_reply = reply 403 "approval_forbidden" "the current role cannot approve a proposal";
    unavailable_reply = reply 503 "approval_unavailable" "approval service is unavailable";
    body_code = "invalid_approval_request";
    outside = λ p r. not_decisive (status_of (trim r.decision));
    outside_reply = reply 400 "invalid_approval_decision" "decision must be approved or rejected";
    input = λ p r. record {
      organization_id = p.organization_id;
      actor_id = p.user_id;
      proposal_id = proposal_id;
      proposal_version_id = trim r.proposal_version_id;
      business_id = trim r.business_id;
      status = status_of (trim r.decision);
      reason = r.reason;
      request_id = request_id;
    };
    on_error = approval_error text;
    status = 200;
  }
