-- ===== src/Store/Steps/Current.antt =====
-- internal/platform/postgres: every proposal has its current version, after any run.
use webmcp_backend.Common.{
  ◌≡◌, inl, inr, refl, sym, ◌∙◌, String, Bool, true, List, ◌∷◌, string_eq, nat_eq, any, All, arith,
  eq_iff, ℕ,
}
use mathlib.Core.Path.{subst}
use webmcp_backend.Common.Int.{pos, pos_part}
use webmcp_backend.Domain.Core.{Ident}
use webmcp_backend.Domain.Proposal
use webmcp_backend.Domain.Proposal.{Proposal}
use webmcp_backend.Store.Tables.{ProposalRow, VersionRow, Db}
use webmcp_backend.Store.Sql.Every.{any-update_where, All-map, All-update_where}
use webmcp_backend.Store.Sql.{update_where}
use webmcp_backend.Store.Proposals.Rows.{version_row, is_proposal, is_current}
use webmcp_backend.Common.Float.{Float64}
use webmcp_backend.Domain.Approval.{Decision}
use webmcp_backend.Workflow.Proposals.{draft_of}
use webmcp_backend.Store.Tx.{Session, Tx, with_tenant_tx}
use webmcp_backend.Store.Tx.Laws.{Returns, with_tenant_tx_atomic}
use webmcp_backend.Store.Approvals.{decide_tx, record_decision, is_in_review, as_proposal_status}
use webmcp_backend.Store.Approvals.Recorded.{decide_tx-Recorded}
use webmcp_backend.Store.Commits.Replay.{db-commit}
use webmcp_backend.Store.Proposals.Rows.{is_draft}
use webmcp_backend.Store.Proposals.Operations.{
  create_proposal_tx, create_proposal, save_revision_tx, save_revision, submit_review_tx,
  submit_review,
}
use webmcp_backend.Store.Proposals.Written.{new_row, create_proposal_tx-Inserted}
use webmcp_backend.Store.Proposals.Revised.{save_revision_tx-Revised}
use webmcp_backend.Store.Proposals.Submitted.{submit_review_tx-Submitted}
use webmcp_backend.Store.Steps.{
  Step, Steps, creates, revises, submits, decides, commits, done, and_then,
}

-- The current version of a proposal is among the versions.
abbrev Stands : List VersionRow → ProposalRow → Type 0
Stands versions p = any (is_current p.organization_id p) versions ≡ true

abbrev pub HasCurrent : {F : Type 0} → Db F → Type 0
HasCurrent db = All (Stands db.versions) db.proposals

Stands-more :
    (v : VersionRow) (vs : List VersionRow) (p : ProposalRow) → Stands vs p → Stands (v ∷ vs) p
Stands-more v vs p h = ground (arith, h)

Stands-moved :
    (hit : VersionRow → Bool) (status : Proposal.Status) (vs : List VersionRow) (p : ProposalRow)
    → Stands vs p
    → Stands (update_where hit (λ v. record v { status = status }) vs) p
Stands-moved hit status vs p h =
    any-update_where (is_current p.organization_id p) hit (λ v. record v { status = status }) vs
      (λ v. refl)
    ∙ h

Stands-new :
    (org : Ident) (c : Proposal) (vs : List VersionRow)
    → c.current.number ≡ pos 1
    → Stands (version_row org c.id c.current ∷ vs) (new_row org c)
Stands-new org c vs one = ground (arith, one, (eq_iff org org).1 refl, (eq_iff c.id c.id).1 refl)

Stands-advanced :
    (org : Ident) (next : Proposal) (vs : List VersionRow) (p : ProposalRow)
    → is_proposal org next.id p ≡ true
    → Stands
        (version_row org next.id next.current ∷ vs)
        (record p { current_version_number = pos_part next.current.number })
Stands-advanced org next vs p h = ground (
  arith,
  h,
  eq_iff p.organization_id org,
  eq_iff p.id next.id,
  eq_iff org p.organization_id,
  eq_iff next.id p.id,
)

module _ {F : Type 0} where
  -- A transaction keeps the property if its callback does where it returns.
  transaction-HasCurrent :
      {A : Type 0} (pool : Bool) (org : Ident) (f : Tx F A) (s : Session F)
      → ((s1 s2 : Session F) (a : A) → Returns f s1 a s2 → HasCurrent s1.db → HasCurrent s2.db)
      → HasCurrent s.db
      → HasCurrent (with_tenant_tx pool org f s).1.db
  transaction-HasCurrent pool org f s keeps h = elim (with_tenant_tx_atomic pool org f s) [
    | inl undone ↦ subst HasCurrent (sym undone) h
    | inr (a, s1, s2, run, same, kept) ↦
        subst HasCurrent (sym kept) (keeps s1 s2 a run (subst HasCurrent (sym same) h))
  ]

  module _ (digest : String → String) (guest : Bool) (org actor_id : Ident)
      (request_id : String) where
    create_proposal-HasCurrent :
        (pool : Bool) (c : Proposal) (s : Session F)
        → c.current.number ≡ pos 1
        → HasCurrent s.db
        → HasCurrent (create_proposal digest guest org actor_id request_id pool c s).1.db
    unfolding create_proposal
    create_proposal-HasCurrent pool c s one h =
        transaction-HasCurrent pool org (create_proposal_tx digest guest org actor_id request_id c)
          s
          (λ s1 s2 u run k.
            let made =
              create_proposal_tx-Inserted digest guest org actor_id request_id c s1 s2 u run in
            subst HasCurrent (sym made.effect) (
              Stands-new org c s1.db.versions one,
              All-map (Stands s1.db.versions)
                  (Stands (version_row org c.id c.current ∷ s1.db.versions)) s1.db.proposals
                  (Stands-more (version_row org c.id c.current) s1.db.versions) k,
            ))
          h

    save_revision-HasCurrent :
        (pool : Bool) (next : Proposal) (expected : ℕ) (s : Session F)
        → HasCurrent s.db
        → HasCurrent (save_revision digest guest org actor_id request_id pool next expected s).1.db
    unfolding save_revision
    save_revision-HasCurrent pool next expected s h =
        transaction-HasCurrent pool org
          (save_revision_tx digest guest org actor_id request_id next expected) s
          (λ s1 s2 u run k.
            let made =
              save_revision_tx-Revised digest guest org actor_id request_id next expected s1 s2 u
                run in
            let moved =
              update_where (is_draft org next.id expected)
                (λ v. record v { status = Proposal.Status.superseded }) s1.db.versions in
            subst HasCurrent (sym made.written.effect) (
              All-update_where (Stands s1.db.versions)
                (Stands (version_row org next.id next.current ∷ moved)) (is_proposal org next.id)
                (λ p. record p { current_version_number = pos_part next.current.number })
                s1.db.proposals (Stands-advanced org next moved)
                (λ p old. Stands-more (version_row org next.id next.current) moved p (
                  Stands-moved (is_draft org next.id expected) Proposal.Status.superseded
                    s1.db.versions p old))
                k))
          h

    submit_review-HasCurrent :
        (pool : Bool) (id : Ident) (expected : ℕ) (s : Session F)
        → HasCurrent s.db
        → HasCurrent (submit_review digest guest org actor_id request_id pool id expected s).1.db
    unfolding submit_review
    submit_review-HasCurrent pool id expected s h =
        transaction-HasCurrent pool org
          (submit_review_tx digest guest org actor_id request_id id expected) s
          (λ s1 s2 u run k.
            let made =
              submit_review_tx-Submitted digest guest org actor_id request_id id expected s1 s2 u
                run in
            subst HasCurrent (sym made.effect) (
              All-map (Stands s1.db.versions)
                (Stands (
                  update_where (is_draft org id expected)
                    (λ v. record v { status = Proposal.Status.in_review }) s1.db.versions))
                s1.db.proposals
                (Stands-moved (is_draft org id expected) Proposal.Status.in_review s1.db.versions)
                k))
          h

  record_decision-HasCurrent :
      (digest : String → String) (pool : Bool) (org : Ident) (request_id : String) (d : Decision)
      (s : Session F)
      → HasCurrent s.db
      → HasCurrent (record_decision digest org d request_id pool s).1.db
  unfolding record_decision
  record_decision-HasCurrent digest pool org request_id d s h =
      transaction-HasCurrent pool org (decide_tx digest org d request_id) s
        (λ s1 s2 u run k.
          let made = decide_tx-Recorded digest org d request_id s1 s2 u run in
          subst HasCurrent (sym made.written.effect) (
            All-map (Stands s1.db.versions)
              (Stands (
                update_where (is_in_review org made.proposal made.version)
                  (λ v. record v { status = as_proposal_status d.status }) s1.db.versions))
              s1.db.proposals
              (Stands-moved (is_in_review org made.proposal made.version)
                (as_proposal_status d.status) s1.db.versions)
              k))
        h

module _ (fl : Float64) (digest : String → String) where
  open fl use {F}

  Step-HasCurrent :
      (before after : Db F) → Step fl digest before after → HasCurrent before → HasCurrent after
  unfolding draft_of
  Step-HasCurrent before after
        (creates guest pool org actor_id request_id i candidate proposal_id version_id s) h =
      create_proposal-HasCurrent digest guest org actor_id request_id pool
        (draft_of fl i candidate proposal_id version_id) s refl h
  Step-HasCurrent before after (revises guest pool org actor_id request_id next expected s) h =
      save_revision-HasCurrent digest guest org actor_id request_id pool next expected s h
  Step-HasCurrent before after (submits guest pool org actor_id request_id id expected s) h =
      submit_review-HasCurrent digest guest org actor_id request_id pool id expected s h
  Step-HasCurrent before after (decides pool org request_id d s) h =
      record_decision-HasCurrent digest pool org request_id d s h
  Step-HasCurrent before after (commits pool i now s) h =
      subst HasCurrent (sym (db-commit digest i now pool s)) h

  -- After any run of creations of drafts as the service builds them, of revisions, submissions,
  -- decisions and commits with any input, and whichever faults occur, every proposal has the version
  -- that it names as its current one, if every proposal had it before the run.
  pub Steps-HasCurrent :
      (before after : Db F) → Steps fl digest before after → HasCurrent before → HasCurrent after
  Steps-HasCurrent before after (done db) h = h
  Steps-HasCurrent before after (and_then _ between _ step steps) h =
      Steps-HasCurrent between after steps (Step-HasCurrent before between step h)
