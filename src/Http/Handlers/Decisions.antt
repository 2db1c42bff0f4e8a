-- ===== src/Http/Handlers/Decisions.antt =====
-- internal/httpapi/api_handlers.go, approvalworkflow/service.go and internal/platform/postgres: what a
-- decision that is answered with success has been.
use mathlib.Core.Option.{some-injective}
use webmcp_backend.Common.{
  ℕ, ◌≡◌, ◌⊎◌, inl, inr, sym, ap, ◌∙◌, String, Bool, true, false, not, Option, some, arith, Error,
  ◌==◌, string_eq, eq_iff, Bool-cases,
}
use webmcp_backend.Common.Io.{Io}
use webmcp_backend.Common.Text.{trim}
use webmcp_backend.Domain.Core.{Ident}
use webmcp_backend.Domain.Approval
use webmcp_backend.Domain.Approval.{Decision}
use webmcp_backend.Auth.Principal.{Principal, can_approve}
use webmcp_backend.Store.Tx.{Session}
use webmcp_backend.Store.Approvals.Recorded.{Recorded}
use webmcp_backend.Workflow.Ports.{Random}
use webmcp_backend.Workflow.Approvals.{decide}
use webmcp_backend.Workflow.Approvals.Decided.{decide-Decided, postgres_approvals, decide-Recorded}
use webmcp_backend.Http.Replies.{proceeds, Success, Body, read, approval_error}
use webmcp_backend.Http.Gates.{gated}
use webmcp_backend.Http.Gates.Scope.{gated-Calls, answer_with-proceeds}
use webmcp_backend.Http.Handlers.Requests.{ApprovalDecisionRequest, status_of, not_decisive}
use webmcp_backend.Http.Handlers.Proposals.{decide_approval}

-- The decision that a request asks for, on the proposal of its path.
pub record IsDecisionOf (proposal_id : Ident) (r : ApprovalDecisionRequest) (d : Decision)
    : Type 0 where
  pub of_proposal : d.proposal_id ≡ proposal_id
  pub of_version : d.proposal_version_id ≡ trim r.proposal_version_id
  pub of_business : d.business_id ≡ trim r.business_id
  pub the_reason : d.reason ≡ trim r.reason
  pub decided :
      ((trim r.decision ≡ "approved") × (d.status ≡ Approval.Status.approved))
      ⊎ ((trim r.decision ≡ "rejected") × (d.status ≡ Approval.Status.rejected))

decisive :
    (s : String) (status : Approval.Status)
    → not_decisive (status_of s) ≡ false
    → status ≡ status_of s
    → ((s ≡ "approved") × (status ≡ Approval.Status.approved))
      ⊎ ((s ≡ "rejected") × (status ≡ Approval.Status.rejected))
decisive s status h e = elim (Bool-cases (s == "approved")) [
  | inl first ↦ let same = (eq_iff s "approved").0 first in inl (same, e ∙ ap status_of same)
  | inr other ↦ elim (Bool-cases (s == "rejected")) [
    | inl second ↦ let same = (eq_iff s "rejected").0 second in inr (same, e ∙ ap status_of same)
    | inr neither ↦ absurd (ground (arith, h, other, neither))
  ]
]

not-false : (b : Bool) → not b ≡ false → b ≡ true
not-false b h = ground (arith, h)

-- Over the service and the PostgreSQL adapter, with a source of randomness and a clock that leave
-- the database alone, a decision that is answered with success is the one that the request asks for:
-- approved or rejected as its body says, with the reason, version and business of the body and the
-- proposal of the path. It is made by the user of a principal who may approve, and recorded in the
-- organization of that principal.
pub decide_approval-Recorded :
    {F : Type 0} (text : Error → String) (request_id : String) (digest : String → String)
    (pool : Bool) (random : Random (Session F)) (now : Io (Session F) ℕ)
    (principal : Option Principal) (proposal_id : Ident) (body : Body ApprovalDecisionRequest)
    (s s' : Session F) (out : Success Decision)
    → ((t : Session F) → (random t).1.db ≡ t.db)
    → ((t : Session F) → (now t).1.db ≡ t.db)
    → gated
        (decide_approval text request_id proposal_id)
        principal
        (some (decide random now (some (postgres_approvals digest pool))))
        body
        request_id
        s
      ≡ (proceeds out, s')
    → (user : Principal) × (r : ApprovalDecisionRequest) × (at : ℕ) × (principal ≡ some user)
      × (can_approve user ≡ true)
      × (body ≡ read r)
      × IsDecisionOf proposal_id r out.value
      × (out.value.decided_by ≡ user.user_id)
      × Recorded digest user.organization_id out.value request_id at s.db s'.db
unfolding decide_approval
decide_approval-Recorded text request_id digest pool random now principal proposal_id body s s' out
      random_keeps now_keeps h =
    let g = decide_approval text request_id proposal_id in
    let service = decide random now (some (postgres_approvals digest pool)) in
    elim (gated-Calls g principal (some service) body request_id s) [
      | inl (r, e) ↦ absurd (ground (arith, e, h))
      | inr c ↦
          let i = g.input c.user c.request in
          let same = some-injective _ _ c.wired in
          let returned =
            ap (λ f. f i s) same
            ∙ answer_with-proceeds (approval_error text) 200 request_id (c.call i s) out s'
                (sym c.answered ∙ h) in
          let (at, recorded) =
            decide-Recorded digest pool random now i out.value s s' random_keeps now_keeps
              returned in
          let d =
            decide-Decided random now (some (postgres_approvals digest pool)) i out.value s s'
              returned in
          (
            c.user,
            c.request,
            at,
            c.signed_in,
            not-false (can_approve c.user) c.allowed,
            c.readable,
            record {
              of_proposal = d.answers.same_proposal;
              of_version = d.answers.same_version;
              of_business = d.answers.same_business;
              the_reason = d.answers.the_reason;
              decided =
                  decisive (trim c.request.decision) out.value.status c.inside
                    d.answers.same_status;
            },
            d.answers.by_actor,
            recorded,
          )
    ]
