-- ===== src/Store/Commits/Writes.antt =====
-- internal/platform/postgres/commit_service.go: the identifiers of what a commit writes, and its
-- writes. `digest` gives the hexadecimal text of the first sixteen bytes of a text's SHA-256.
use Prim.Native.String.{◌++◌ as append}
use webmcp_backend.Common.{
  ℕ, ◌+◌, ◌^◌, String, false, not, ◌&&◌, ◌||◌, some, [], ◌∷◌, ◌==◌, nat_eq, string_eq, leb, any,
  message, wrap, Result, ok,
}
use webmcp_backend.Domain.Core.{Ident, human}
use webmcp_backend.Domain.Proposal
use webmcp_backend.Domain.Proposal.{Proposal, status_eq as proposal_status_eq}
use webmcp_backend.Domain.Commit
use webmcp_backend.Domain.Commit.{ValidationInput, validate}
use webmcp_backend.Store.Tables.{BusinessRow, Db}
use webmcp_backend.Store.Sql.{count_where, update_where, constrained}
use webmcp_backend.Store.Tx.{Tx, ◌>>=◌, ◌>>◌, lift, statement, reject, database_error}
use webmcp_backend.Store.Commits.Rows.{CommitInput, CommitOutcome}

-- `deterministicArtifactID`
unfoldable pub artifact_id : (String → String) → String → Ident → Ident
artifact_id digest prefix operation_id = append prefix (append "-" (digest operation_id))

abbrev pub decision_id : (String → String) → CommitInput → Ident
decision_id digest i = artifact_id digest "decision" i.operation_id

abbrev pub audit_id : (String → String) → CommitInput → Ident
audit_id digest i = artifact_id digest "audit" i.operation_id

module _ {F : Type 0} (digest : String → String) (i : CommitInput) (now : ℕ) where
  -- `INSERT INTO committed_decisions`: the identifier and the version are unique, and an `int64`
  -- version past its range is negative, which a CHECK refuses.
  unfoldable pub insert_decision : ℕ → String → Db F → Result (Unit {0} × Db F)
  insert_decision version summary db =
      constrained
        (leb (2 ^ 63) version
          || any
              (λ d.
                d.id == decision_id digest i
                || (d.organization_id == i.organization_id
                    && d.proposal_version_id == i.proposal_version_id))
              db.decisions)
        (wrap "persist committed decision" database_error)
        (
          tt,
          record db {
            decisions =
                record {
                  id = decision_id digest i;
                  organization_id = i.organization_id;
                  business_id = i.business_id;
                  proposal_id = i.proposal_id;
                  proposal_version_id = i.proposal_version_id;
                  committed_business_version = version;
                  summary = summary;
                }
                ∷ db.decisions;
          },
        )

  -- `UPDATE businesses SET state_version = $1 WHERE id = $2 AND state_version = $3`, and the
  -- number of rows that it changed.
  unfoldable pub bump_business : ℕ → ℕ → Db F → Result (ℕ × Db F)
  bump_business version current db =
      let hit = λ (b : BusinessRow).
        b.organization_id == i.organization_id
        && b.id == i.business_id
        && b.state_version == current in
      ok (
        count_where hit db.businesses,
        record db {
          businesses = update_where hit (λ b. record b { state_version = version }) db.businesses;
        },
      )

  unfoldable pub mark_committed : Db F → Result (Unit {0} × Db F)
  mark_committed db = ok (
    tt,
    record db {
      versions =
          update_where
            (λ v.
              v.organization_id == i.organization_id
              && v.id == i.proposal_version_id
              && v.status == Proposal.Status.approved)
            (λ v. record v { status = Proposal.Status.committed }) db.versions;
    },
  )

  unfoldable pub complete_operation : ℕ → Db F → Result (Unit {0} × Db F)
  complete_operation version db = ok (
    tt,
    record db {
      operations =
          update_where (λ o. o.organization_id == i.organization_id && o.id == i.operation_id)
            (λ o. record o {
              status = Commit.Status.succeeded;
              committed_business_version = some version;
              completed_at = some now;
            })
            db.operations;
    },
  )

  unfoldable pub append_audit : Db F → Result (Unit {0} × Db F)
  append_audit db =
      constrained (any (λ a. a.event.id == audit_id digest i) db.audit)
        (wrap "append commit audit event" database_error)
        (
          tt,
          record db {
            audit =
                record {
                  organization_id = i.organization_id;
                  event = record {
                    id = audit_id digest i;
                    actor_type = human;
                    actor_id = i.actor_id;
                    action = "commit_executed";
                    aggregate = "business";
                    aggregate_id = i.business_id;
                    request_id = i.request_id;
                    operation_id = i.operation_id;
                    occurred_at = now;
                    metadata =
                        ("proposal_id", i.proposal_id)
                        ∷ ("proposal_version_id", i.proposal_version_id)
                        ∷ [];
                  };
                }
                ∷ db.audit;
          },
        )

  -- The writes, once the gate is passed.
  unfoldable pub write_commit : ℕ → String → Tx F CommitOutcome
  write_commit current summary = do
    statement "persist committed decision" (insert_decision (current + 1) summary)
    changed ← statement "increment business version" (bump_business (current + 1) current)
    reject (not (changed == 1)) (message "business version changed during commit")
    statement "mark proposal committed" mark_committed
    statement "complete commit operation" (complete_operation (current + 1))
    statement "append commit audit event" append_audit
    lift (
        ok (record {
          operation_id = i.operation_id;
          decision_id = decision_id digest i;
          status = Commit.Status.succeeded;
          committed_business_version = current + 1;
          replayed = false;
        }))
