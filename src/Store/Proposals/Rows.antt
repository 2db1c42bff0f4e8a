-- ===== src/Store/Proposals/Rows.antt =====
-- internal/platform/postgres/proposal_repository.go: the rows of proposals and of their versions, how
-- they are read, and what their constraints refuse. `guest` tells whether the request comes from a
-- guest session (`auth.IsGuest`).
use Prim.Native.String.{◌++◌ as append}
use webmcp_backend.Common.{
  ℕ, ◌^◌, String, Bool, false, not, ◌&&◌, ◌||◌, Option, none, some, ◌∷◌, ◌==◌, nat_eq, string_eq,
  leb, any, find?, message, wrap, Error, Result, ok, err, Checked,
}
use webmcp_backend.Common.Int.{pos, leb_ℤ, pos_part, int_eq}
use webmcp_backend.Common.Text.{is_empty}
use webmcp_backend.Domain.Core.{Ident}
use webmcp_backend.Domain.Proposal
use webmcp_backend.Domain.Proposal.{
  Proposal, Version, validate_proposal, status_eq as proposal_status_eq,
}
use webmcp_backend.Domain.Scenario.{status_eq as scenario_status_eq}
use webmcp_backend.Auth.Principal.{Role, viewer, role_eq}
use webmcp_backend.Store.Tables.{UserRow, ProposalRow, VersionRow, Db}
use webmcp_backend.Store.Sql.{constrained, is_staff}
use webmcp_backend.Store.Tx.{Tx, query, database_error, with_tenant_tx}
use webmcp_backend.Store.Commits.Writes.{artifact_id}
use webmcp_backend.Store.Approvals.{is_other}

-- The other sentinels of internal/application/proposalworkflow/service.go.
abbrev pub proposal_not_found : Error
proposal_not_found = message "proposal not found"

abbrev pub proposal_conflict : Error
proposal_conflict = message "proposal changed before update"

abbrev pub proposal_unauthorized : Error
proposal_unauthorized = message "proposal actor is not authorized"

-- `role IN ('owner', 'operator') OR (role = 'viewer' AND $guest)`
abbrev may_work : Bool → Role → Bool
may_work guest r = is_staff r || r == viewer && guest

abbrev pub proposal_audit_id : (String → String) → Ident → String → String → Ident
proposal_audit_id digest id action request_id =
    artifact_id digest "proposal-audit"
      (append id (append ":" (append action (append ":" request_id))))

-- `scanProposal`, before its validation.
unfoldable pub stored_proposal : ProposalRow → VersionRow → Proposal
stored_proposal p v = record {
  id = p.id;
  business_id = p.business_id;
  goal_id = p.goal_id;
  current = record {
    id = v.id;
    proposal_id = p.id;
    number = pos v.number;
    scenario_id = v.scenario_id;
    base_business_version = v.base_business_version;
    summary = v.summary;
    changes = v.changes;
    status = v.status;
  };
  version = p.current_version_number;
}

abbrev validated : Proposal → Checked → Result Proposal
validated p (ok _) = ok p
validated p (err e) = err (wrap "read proposal" (wrap "invalid persisted proposal" e))

abbrev pub version_row : Ident → Ident → Version → VersionRow
version_row org id v = record {
  id = v.id;
  organization_id = org;
  proposal_id = id;
  number = pos_part v.number;
  scenario_id = v.scenario_id;
  base_business_version = v.base_business_version;
  summary = v.summary;
  changes = v.changes;
  status = v.status;
}

-- The version of the number, while it is a draft.
abbrev pub is_draft : Ident → Ident → ℕ → VersionRow → Bool
is_draft org id number v =
    v.organization_id == org
    && v.proposal_id == id
    && v.number == number
    && v.status == Proposal.Status.draft

abbrev pub is_proposal : Ident → Ident → ProposalRow → Bool
is_proposal org id p = p.organization_id == org && p.id == id

abbrev pub may_act : Bool → Option UserRow → Bool
may_act _ none = false
may_act guest (some u) = may_work guest u.role

abbrev pub is_stored : Ident → Ident → Ident → ProposalRow → Bool
is_stored org business_id id p =
    p.organization_id == org && p.id == id && (is_empty business_id || p.business_id == business_id)

abbrev pub is_current : Ident → ProposalRow → VersionRow → Bool
is_current org p v =
    v.organization_id == org && v.proposal_id == p.id && v.number == p.current_version_number

module _ {F : Type 0} (org : Ident) where
  unfoldable pub find_proposal : Ident → Db F → Option ProposalRow
  find_proposal id db = find? (λ p. p.organization_id == org && p.id == id) db.proposals

  -- The proposal of the business, of any business where none is named, with its current version.
  unfoldable pub find_stored : Ident → Ident → Db F → Option (ProposalRow × VersionRow)
  find_stored business_id id db = elim (find? (is_stored org business_id id) db.proposals) [
    | none ↦ none
    | some p ↦ elim (find? (is_current org p) db.versions) [ none ↦ none | some v ↦ some (p, v) ]
  ]

  -- `scanProposal`
  unfoldable pub read_stored : Ident → Ident → Db F → Result Proposal
  unfolding find_stored stored_proposal
  read_stored business_id id db = elim (find_stored business_id id db) [
    | none ↦ err proposal_not_found
    | some found ↦
        validated (stored_proposal found.0 found.1)
          (validate_proposal (stored_proposal found.0 found.1))
  ]

  -- `GetProposal`
  unfoldable pub get_proposal : Bool → Ident → Ident → Tx F Proposal
  get_proposal pool business_id id =
      with_tenant_tx pool org (query "read proposal" (read_stored business_id id))

  -- What a constraint of `proposal_versions`, or the range of its `integer` and `bigint` columns,
  -- refuses.
  unfoldable pub refuses_version : Ident → Version → Db F → Bool
  refuses_version id v db =
      not (any (λ p. p.organization_id == org && p.id == id) db.proposals)
      || not (any (λ s. s.organization_id == org && s.scenario.id == v.scenario_id) db.scenarios)
      || leb_ℤ v.number (pos 0)
      || leb_ℤ (pos (2 ^ 31)) v.number
      || v.base_business_version == 0
      || leb (2 ^ 63) v.base_business_version
      || is_other v.status
      || any (λ w. w.id == v.id || w.proposal_id == id && pos w.number == v.number) db.versions

  -- `INSERT INTO proposal_versions`
  unfoldable pub insert_version : String → Ident → Version → Db F → Result (Unit {0} × Db F)
  unfolding refuses_version
  insert_version label id v db =
      constrained (refuses_version id v db) (wrap label database_error)
        (tt, record db { versions = version_row org id v ∷ db.versions })
