-- ===== src/Workflow/Approvals.antt =====
-- internal/application/approvalworkflow/service.go: a human decides on a proposal version. `now`
-- is the service's clock, or `time.Now` where it has none.
pub mod Decided
use Prim.Native.String.{len}
use webmcp_backend.Common.{
  ℕ, String, Bool, not, ◌&&◌, ◌||◌, Option, [], ◌∷◌, ◌==◌, ltb, message, Result, ok,
}
use webmcp_backend.Common.Text.{trim, is_empty, is_blank}
use webmcp_backend.Common.Io.{Io, ◌>>=◌, ◌>>◌, lift, reject}
use webmcp_backend.Domain.Core.{Ident, validate_ids}
use webmcp_backend.Domain.Approval
use webmcp_backend.Domain.Approval.{Decision, validate_decision, status_eq}
use webmcp_backend.Workflow.Ports.{ApprovalRepository, Random, fresh_id, required}

pub record DecisionInput : Type 0 where
  pub organization_id : Ident
  pub actor_id : Ident
  pub proposal_id : Ident
  pub proposal_version_id : Ident
  pub business_id : Ident
  pub status : Approval.Status
  pub reason : String
  pub request_id : String

-- The decision that `Decide` builds.
unfoldable pub decision_for : DecisionInput → Ident → Decision
decision_for i id = record {
  id = id;
  proposal_id = i.proposal_id;
  proposal_version_id = i.proposal_version_id;
  business_id = i.business_id;
  decided_by = i.actor_id;
  status = i.status;
  reason = trim i.reason;
  expires_at = 0;
}

module _ {W : Type 0} (random : Random W) (now : Io W ℕ)
    (repository : Option (ApprovalRepository W)) where
  -- `Decide`
  unfoldable pub decide : DecisionInput → Io W Decision
  decide i = do
    lift (
        validate_ids (
          ("organization_id", i.organization_id)
          ∷ ("actor_id", i.actor_id)
          ∷ ("proposal_id", i.proposal_id)
          ∷ ("proposal_version_id", i.proposal_version_id)
          ∷ ("business_id", i.business_id)
          ∷ []))
    reject
        (not (i.status == Approval.Status.approved) && not (i.status == Approval.Status.rejected))
        (message "approval decision must be approved or rejected")
    reject (is_empty (trim i.reason) || ltb 2000 (len (trim i.reason)) || is_blank i.request_id)
        (message "reason and request_id are required within their limits")
    approvals ← required "approval service dependencies are unavailable" repository
    id ← fresh_id random "approval"
    at ← now
    lift (validate_decision (decision_for i id) at)
    approvals.record_decision i.organization_id (decision_for i id) i.request_id
    lift (ok (decision_for i id))
