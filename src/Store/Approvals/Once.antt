-- ===== src/Store/Approvals/Once.antt =====
-- internal/platform/postgres/approval_repository.go: a version is decided at most once.
use webmcp_backend.Common.{
  ◌≡◌, ◌≢◌, ◌⊎◌, inl, inr, String, Bool, ◌&&◌, ◌==◌, nat_eq, string_eq, some, List, find?, arith,
  eq_iff, Option-cases, ap, sym, ◌∙◌,
}
use mathlib.Core.Path.{subst}
use webmcp_backend.Domain.Core.{Ident}
use webmcp_backend.Domain.Proposal
use webmcp_backend.Domain.Proposal.{status_eq as proposal_status_eq, status_beq_iff}
use webmcp_backend.Domain.Approval
use webmcp_backend.Domain.Approval.{Decision}
use webmcp_backend.Store.Tables.{ProposalRow, VersionRow, Db}
use webmcp_backend.Store.Sql.{update_where}
use webmcp_backend.Store.Sql.Laws.{find?-update_where, find?-true}
use webmcp_backend.Store.Tx.{Session}
use webmcp_backend.Store.Tx.Laws.{Returns}
use webmcp_backend.Store.Commits.Rows.{find_current}
use webmcp_backend.Store.Approvals.{is_in_review, as_proposal_status, record_decision}
use webmcp_backend.Store.Approvals.Recorded.{record_decision-Recorded}

abbrev is_proposal : Ident → Ident → Ident → ProposalRow → Bool
is_proposal org proposal_id business_id p =
    p.organization_id == org && p.id == proposal_id && p.business_id == business_id

abbrev is_version : Ident → Ident → ProposalRow → VersionRow → Bool
is_version org version_id p v =
    v.organization_id == org
    && v.proposal_id == p.id
    && v.number == p.current_version_number
    && v.id == version_id

module _ {F : Type 0} (org proposal_id version_id business_id : Ident) (db : Db F) where
  -- What `find_current` tells of the rows that it returns.
  find_current-found :
      (p : ProposalRow) (v : VersionRow)
      → find_current org proposal_id version_id business_id db ≡ some (p, v)
      → (find? (is_proposal org proposal_id business_id) db.proposals ≡ some p)
        × (find? (is_version org version_id p) db.versions ≡ some v)
  unfolding find_current
  find_current-found p v h =
      elim (Option-cases (find? (is_proposal org proposal_id business_id) db.proposals)) [
        | inl missing ↦ absurd (ground (arith, missing, h))
        | inr (p', e) ↦ elim (Option-cases (find? (is_version org version_id p') db.versions)) [
          | inl missing ↦ absurd (ground (arith, e, missing, h))
          | inr (v', e') ↦ (ground (arith, e, e', h), ground (arith, e, e', h))
        ]
      ]

same_ids :
    (org id business business' : Ident) (p p' : ProposalRow) (rows rows' : List ProposalRow)
    → find? (is_proposal org id business) rows ≡ some p
    → find? (is_proposal org id business') rows' ≡ some p'
    → p'.id ≡ p.id
same_ids org id business business' p p' rows rows' h h' =
    let here = find?-true (is_proposal org id business) rows p h in
    let there = find?-true (is_proposal org id business') rows' p' h' in
    ground (arith, here, there, eq_iff p.id id, eq_iff p'.id id)

version_id_of :
    (org id : Ident) (p : ProposalRow) (v : VersionRow) (rows : List VersionRow)
    → find? (is_version org id p) rows ≡ some v
    → v.id ≡ id
version_id_of org id p v rows h =
    let here = find?-true (is_version org id p) rows v h in ground (arith, here, eq_iff v.id id)

-- Of the rows after a decision, none that has the decided version's identifiers is in review.
none_in_review :
    (org : Ident) (p p' : ProposalRow) (v w : VersionRow) (version_id : Ident) (s : Proposal.Status)
    (rows : List VersionRow)
    → s ≢ Proposal.Status.in_review
    → p'.id ≡ p.id
    → v.id ≡ version_id
    → find?
        (is_version org version_id p')
        (update_where (is_in_review org p v) (λ x. record x { status = s }) rows)
      ≡ some w
    → w.status ≢ Proposal.Status.in_review
none_in_review org p p' v w version_id s rows final same same_v h reviewed =
    let (selected, old_or_new) =
      find?-update_where (is_version org version_id p') (is_in_review org p v)
        (λ x. record x { status = s }) rows w h in
    elim old_or_new [
      | inr (x, e) ↦ final (sym (ap (λ (u : VersionRow). u.status) e) ∙ reviewed)
      | inl kept ↦ absurd (
          ground (
            arith,
            selected,
            kept,
            (status_beq_iff w.status Proposal.Status.in_review).1 reviewed,
            eq_iff w.id version_id,
            eq_iff w.id v.id,
            eq_iff w.proposal_id p'.id,
            eq_iff w.proposal_id p.id,
            same,
            same_v,
          ))
    ]

final_status :
    (st : Approval.Status)
    → (st ≡ Approval.Status.approved) ⊎ (st ≡ Approval.Status.rejected)
    → as_proposal_status st ≢ Proposal.Status.in_review
unfolding as_proposal_status
final_status st e k = ground (arith, e, k)

-- Once an approval or a rejection of a version is recorded, no further decision on that version
-- of the proposal is recorded in the database that it left, whoever decides and for whichever
-- business.
pub record_decision_once :
    {F : Type 0} (digest : String → String) (org : Ident) (d d' : Decision)
    (request_id request_id' : String) (pool pool' : Bool) (s s' t t' : Session F)
    → (d.status ≡ Approval.Status.approved) ⊎ (d.status ≡ Approval.Status.rejected)
    → Returns (record_decision digest org d request_id pool) s tt s'
    → t.db ≡ s'.db
    → d'.proposal_id ≡ d.proposal_id
    → d'.proposal_version_id ≡ d.proposal_version_id
    → ¬ (Returns (record_decision digest org d' request_id' pool') t tt t')
record_decision_once digest org d d' request_id request_id' pool pool' s s' t t' final h same_db
      same_p same_v h' =
    let r = record_decision-Recorded digest org d request_id pool s s' tt h in
    let r' = record_decision-Recorded digest org d' request_id' pool' t t' tt h' in
    let (p_here, v_here) =
      find_current-found org d.proposal_id d.proposal_version_id d.business_id s.db r.proposal
        r.version r.the_version in
    let (p_there, v_there) =
      find_current-found org d'.proposal_id d'.proposal_version_id d'.business_id t.db r'.proposal
        r'.version r'.the_version in
    let versions : t.db.versions
        ≡ update_where (is_in_review org r.proposal r.version)
            (λ x. record x { status = as_proposal_status d.status }) s.db.versions =
      ap (λ (db : Db _). db.versions) same_db ∙ ap (λ (db : Db _). db.versions) r.written.effect in
    none_in_review org r.proposal r'.proposal r.version r'.version d'.proposal_version_id
      (as_proposal_status d.status) s.db.versions (final_status d.status final)
      (same_ids org d.proposal_id d.business_id d'.business_id r.proposal r'.proposal s.db.proposals
        t.db.proposals p_here
        (subst (λ id. find? (is_proposal org id d'.business_id) t.db.proposals ≡ some r'.proposal)
          same_p p_there))
      (version_id_of org d.proposal_version_id r.proposal r.version s.db.versions v_here
        ∙ sym same_v)
      (subst
        (λ rows. find? (is_version org d'.proposal_version_id r'.proposal) rows ≡ some r'.version)
        versions v_there)
      r'.in_review
