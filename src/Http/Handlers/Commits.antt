-- ===== src/Http/Handlers/Commits.antt =====
-- internal/httpapi/api_handlers.go: the handler of commits. `digest` is the hexadecimal text of the
-- first sixteen bytes of a SHA-256 digest.
pub mod Called
use Prim.Native.String.{len, ◌++◌ as append}
use webmcp_backend.Common.{
  String, Bool, true, false, not, ◌||◌, Option, ltb, Checked, ok, err, Error,
}
use webmcp_backend.Common.Io.{Io}
use webmcp_backend.Common.Text.{trim}
use webmcp_backend.Domain.Core.{Ident, validate_id}
use webmcp_backend.Auth.Principal.{Principal, can_commit}
use webmcp_backend.Store.Commits.Rows.{CommitInput, CommitOutcome}
use webmcp_backend.Http.Replies.{
  Reply, Served, refuses, proceeds, ◌>>=◌, ◌>>◌, refuse_if, present_or, Body, body_or, Handler,
  answer_with, run, reply, unauthenticated, commit_error,
}

pub record CommitRequest : Type 0 where
  pub proposal_version_id : String
  pub business_id : String

-- `operationID`
unfoldable pub operation_id : (String → String) → Ident → String → Ident
operation_id digest organization_id idempotency_key =
    append "operation-" (digest (append organization_id (append ":commit:" idempotency_key)))

-- `if err := id.Validate(...); err != nil { writeError(...); return }`
abbrev pub valid_or : Reply → Checked → Served (Unit {0})
valid_or r (ok _) = proceeds tt
valid_or r (err e) = refuses r

module _ {W : Type 0} (digest : String → String) (principal : Option Principal)
    (request_id : String) (committer : Option (CommitInput → Io W CommitOutcome)) where
  -- The checks of `commitProposal`, of the proposal in its path, the body and the
  -- `Idempotency-Key` header.
  unfoldable pub admit_commit :
      Ident
      → Body CommitRequest
      → String
      → Served ((CommitInput → Io W CommitOutcome) × CommitInput)
  admit_commit proposal_id body key = do
    p ← present_or unauthenticated principal
    refuse_if (not (can_commit p))
        (reply 403 "commit_forbidden" "the current role cannot commit a proposal")
    commit ← present_or (reply 503 "commit_unavailable" "commit service is unavailable") committer
    valid_or (reply 400 "invalid_proposal_id" "proposal_id is invalid")
        (validate_id proposal_id "proposal_id")
    request ← body_or "invalid_commit_request" body
    valid_or (reply 400 "invalid_proposal_version_id" "proposal_version_id is invalid")
        (validate_id (trim request.proposal_version_id) "proposal_version_id")
    refuse_if (ltb (len (trim key)) 8 || ltb 200 (len (trim key)))
        (reply 400 "invalid_idempotency_key" "Idempotency-Key must be between 8 and 200 characters")
    valid_or (reply 400 "missing_business_id" "business_id is required for commit")
        (validate_id (trim request.business_id) "business_id")
    proceeds (
      commit,
      record {
        organization_id = p.organization_id;
        operation_id = operation_id digest p.organization_id (trim key);
        idempotency_key = trim key;
        business_id = trim request.business_id;
        proposal_id = proposal_id;
        proposal_version_id = trim request.proposal_version_id;
        actor_id = p.user_id;
        request_id = request_id;
        authorized = can_commit p;
      },
    )

  abbrev pub call_commit :
      (CommitInput → Io W CommitOutcome) × CommitInput → Handler W CommitOutcome
  call_commit (commit, input) w = answer_with commit_error 200 request_id (commit input w)

  -- `commitProposal`
  unfoldable pub commit_proposal : Ident → Body CommitRequest → String → Handler W CommitOutcome
  unfolding admit_commit operation_id
  commit_proposal proposal_id body key = run (admit_commit proposal_id body key) call_commit
