-- ===== src/Store/Steps.antt =====
-- internal/platform/postgres: the database over a run of the operations on proposals, decisions and
-- commits. One step is one operation, of any organization, whether it returns, fails, or loses its
-- answer. A proposal that is created is a draft as the service builds it; a revision, a submission, a
-- decision and a commit have any input.
pub mod Current
use webmcp_backend.Common.{ℕ, ◌≡◌, String, Bool}
use webmcp_backend.Common.Float.{Float64}
use webmcp_backend.Domain.Scenario.{Scenario}
use webmcp_backend.Workflow.Proposals.{CreateInput, draft_of}
use webmcp_backend.Domain.Core.{Ident}
use webmcp_backend.Domain.Proposal.{Proposal}
use webmcp_backend.Domain.Approval.{Decision}
use webmcp_backend.Store.Tables.{Db}
use webmcp_backend.Store.Tx.{Session}
use webmcp_backend.Store.Commits.Rows.{CommitInput}
use webmcp_backend.Store.Commits.Transaction.{commit}
use webmcp_backend.Store.Approvals.{record_decision}
use webmcp_backend.Store.Proposals.Operations.{create_proposal, save_revision, submit_review}

module _ (fl : Float64) (digest : String → String) where
  open fl use {F}

  -- A new proposal is a draft as the service builds it from a scenario, so its number is one.
  pub data Step : Db F → Db F → Type 0 where
    creates :
        (guest pool : Bool) (org actor_id : Ident) (request_id : String) (i : CreateInput)
        (candidate : Scenario F) (proposal_id version_id : Ident) (s : Session F)
        → Step (s.db) (
            (create_proposal digest guest org actor_id request_id pool
              (draft_of fl i candidate proposal_id version_id)
              s).1.db)
    revises :
        (guest pool : Bool) (org actor_id : Ident) (request_id : String) (next : Proposal)
        (expected : ℕ) (s : Session F)
        → Step
            (s.db)
            ((save_revision digest guest org actor_id request_id pool next expected s).1.db)
    submits :
        (guest pool : Bool) (org actor_id : Ident) (request_id : String) (id : Ident) (expected : ℕ)
        (s : Session F)
        → Step (s.db) ((submit_review digest guest org actor_id request_id pool id expected s).1.db)
    decides :
        (pool : Bool) (org : Ident) (request_id : String) (d : Decision) (s : Session F)
        → Step (s.db) ((record_decision digest org d request_id pool s).1.db)
    commits :
        (pool : Bool) (i : CommitInput) (now : ℕ) (s : Session F)
        → Step (s.db) ((commit digest i now pool s).1.db)

  pub data Steps : Db F → Db F → Type 0 where
    done : (db : Db F) → Steps db db
    and_then :
        (before between after : Db F)
        → Step before between
        → Steps between after
        → Steps before after
