-- ===== src/Store/Approvals/Recorded.antt =====
-- internal/platform/postgres/approval_repository.go: what a recorded decision has checked and
-- written.
use webmcp_backend.Common.{ℕ, ◌≡◌, sym, String, Bool, true, some, ◌∷◌, nat_eq, string_eq, arith, ok}
use mathlib.Core.Path.{subst}
use webmcp_backend.Domain.Core.{Ident}
use webmcp_backend.Domain.Proposal
use webmcp_backend.Domain.Proposal.{status_eq as proposal_status_eq, status_beq_iff}
use webmcp_backend.Domain.Approval.{Decision}
use webmcp_backend.Store.Tables.{BusinessRow, UserRow, ProposalRow, VersionRow, Db}
use webmcp_backend.Store.Sql.{count_where, update_where, is_staff, find_business, find_user}
use webmcp_backend.Store.Tx.{Session}
use webmcp_backend.Store.Tx.Laws.{
  Returns, bind-Returns, now-Returns, query-Returns, statement-Returns, reject-Returns,
  with_tenant_tx-Returns,
}
use webmcp_backend.Store.Commits.Rows.{find_current}
use webmcp_backend.Store.Approvals.{
  approval_row, decision_event, is_in_review, as_proposal_status, insert_approval, decide_version,
  append_decision_audit, write_decision, decide_tx, record_decision,
}

insert_approval_lem :
    {F : Type 0} (org : Ident) (d : Decision) (p : ProposalRow) (v : VersionRow) (db db' : Db F)
    → insert_approval org d p v db ≡ ok (tt, db')
    → db' ≡ record db { approvals = approval_row org d p v ∷ db.approvals }
unfolding insert_approval
insert_approval_lem org d p v db db' h = ground arith

decide_version_lem :
    {F : Type 0} (org : Ident) (d : Decision) (p : ProposalRow) (v : VersionRow) (db db' : Db F)
    (n : ℕ)
    → decide_version org d p v db ≡ ok (n, db')
    → (n ≡ count_where (is_in_review org p v) db.versions)
      × (db' ≡ record db {
        versions =
            update_where
              (is_in_review org p v)
              (λ w. record w { status = as_proposal_status d.status })
              db.versions;
      })
unfolding decide_version
decide_version_lem org d p v db db' n h = (ground arith, ground arith)

append_decision_audit_lem :
    {F : Type 0} (digest : String → String) (org : Ident) (d : Decision) (request_id : String)
    (at : ℕ) (db db' : Db F)
    → append_decision_audit digest org d request_id at db ≡ ok (tt, db')
    → db' ≡ record db { audit = decision_event digest org d request_id at ∷ db.audit }
unfolding append_decision_audit
append_decision_audit_lem digest org d request_id at db db' h = ground arith

module _ {F : Type 0} (digest : String → String) (org : Ident) (d : Decision)
    (request_id : String) where
  -- The new rows stand before the old ones, and one version has left its review.
  pub record Written (at : ℕ) (before after : Db F) (p : ProposalRow) (v : VersionRow)
      : Type 0 where
    pub effect : after ≡ record before {
      approvals = approval_row org d p v ∷ before.approvals;
      versions =
          update_where
            (is_in_review org p v)
            (λ w. record w { status = as_proposal_status d.status })
            before.versions;
      audit = decision_event digest org d request_id at ∷ before.audit;
    }
    pub one_version : count_where (is_in_review org p v) before.versions ≡ 1

  pub record Recorded (at : ℕ) (before after : Db F) : Type 0 where
    pub business : BusinessRow
    pub actor : UserRow
    pub proposal : ProposalRow
    pub version : VersionRow
    pub the_business : find_business org d.business_id before ≡ some business
    pub the_actor : find_user org d.decided_by before ≡ some actor
    pub staff : is_staff actor.role ≡ true
    pub the_version :
        find_current org d.proposal_id d.proposal_version_id d.business_id before
        ≡ some (proposal, version)
    pub in_review : version.status ≡ Proposal.Status.in_review
    pub fresh : version.base_business_version ≡ business.state_version
    pub written : Written at before after proposal version

  write_decision-Written :
      (p : ProposalRow) (v : VersionRow) (s s' : Session F) (u : Unit {0})
      → Returns (write_decision digest org d request_id p v) s u s'
      → Written s.clock s.db s'.db p v
  unfolding write_decision
  write_decision-Written p v s s' u h =
      let (_, s1, h1, k1) = bind-Returns _ _ s s' u h in
      let (n, s2, h2, k2) = bind-Returns _ _ s1 s' u k1 in
      let (w, s3, h3, k3) = bind-Returns _ _ s2 s' u k2 in
      let (_, s4, h4, k4) = bind-Returns _ _ s3 s' u k3 in
      let (at, s5, h5, k5) = bind-Returns _ _ s4 s' u k4 in
      let (e1, c1) = statement-Returns _ _ s s1 _ h1 in
      let (e2, c2) = statement-Returns _ _ s1 s2 n h2 in
      let (one, e3) = reject-Returns _ _ s2 s3 w h3 in
      let (_, e4, c4) = query-Returns _ _ s3 s4 _ h4 in
      let (e5, c5) = now-Returns s4 s5 at h5 in
      let (e6, _) = statement-Returns _ _ s5 s' u k5 in
      let inserted = insert_approval_lem org d p v s.db s1.db e1 in
      let (count, decided) = decide_version_lem org d p v s1.db s2.db n e2 in
      let audited = append_decision_audit_lem digest org d request_id at s5.db s'.db e6 in
      let same : s5.db ≡ s2.db = cc (e3, e4, e5) in
      let time : at ≡ s.clock = cc (c1, c2, e3, c4, c5) in
      record {
        effect = ground (arith, inserted, decided, audited, same, time);
        one_version = ground (arith, inserted, count, one);
      }

  pub decide_tx-Recorded :
      (s s' : Session F) (u : Unit {0})
      → Returns (decide_tx digest org d request_id) s u s'
      → Recorded s.clock s.db s'.db
  unfolding decide_tx
  decide_tx-Recorded s s' u h =
      let (b, s1, h1, k1) = bind-Returns _ _ s s' u h in
      let (_, s2, h2, k2) = bind-Returns _ _ s1 s' u k1 in
      let (a, s3, h3, k3) = bind-Returns _ _ s2 s' u k2 in
      let (_, s4, h4, k4) = bind-Returns _ _ s3 s' u k3 in
      let (found, s5, h5, k5) = bind-Returns _ _ s4 s' u k4 in
      let (_, s6, h6, k6) = bind-Returns _ _ s5 s' u k5 in
      let (_, s7, h7, k7) = bind-Returns _ _ s6 s' u k6 in
      let (q1, e1, _) = query-Returns _ _ s s1 b h1 in
      let (_, e2) = reject-Returns _ _ s1 s2 _ h2 in
      let (q3, e3, _) = query-Returns _ _ s2 s3 a h3 in
      let (g4, e4) = reject-Returns _ _ s3 s4 _ h4 in
      let (q5, e5, _) = query-Returns _ _ s4 s5 found h5 in
      let (g6, e6) = reject-Returns _ _ s5 s6 _ h6 in
      let (g7, e7) = reject-Returns _ _ s6 s7 _ h7 in
      let (_, _, c1) = query-Returns _ _ s s1 b h1 in
      let (_, _, c3) = query-Returns _ _ s2 s3 a h3 in
      let (_, _, c5) = query-Returns _ _ s4 s5 found h5 in
      let time : s7.clock ≡ s.clock = cc (c1, e2, c3, e4, c5, e6, e7) in
      let same : s7.db ≡ s.db = cc (e1, e2, e3, e4, e5, e6, e7) in
      let same2 : s2.db ≡ s.db = cc (e1, e2) in
      let same4 : s4.db ≡ s.db = cc (e1, e2, e3, e4) in
      record {
        business = b;
        actor = a;
        proposal = found.0;
        version = found.1;
        the_business = ground (arith, q1);
        the_actor = ground (arith, q3, same2);
        staff = ground (arith, g4);
        the_version = ground (arith, q5, same4);
        in_review = ground (arith, g6, status_beq_iff found.1.status Proposal.Status.in_review);
        fresh = ground (arith, g7);
        written =
            subst (λ at. Written at s.db s'.db found.0 found.1) time
              (subst (λ db. Written s7.clock db s'.db found.0 found.1) same
                (write_decision-Written found.0 found.1 s7 s' u k7));
      }

  -- A recorded decision found the business, a member of the staff of the organization and the
  -- current version of the proposal, in review and based on the business's version; it adds one
  -- approval and one audit event, moves that one version to the decided status, and changes
  -- nothing else.
  pub record_decision-Recorded :
      (pool : Bool) (s s' : Session F) (u : Unit {0})
      → Returns (record_decision digest org d request_id pool) s u s'
      → Recorded s.clock s.db s'.db
  unfolding record_decision
  record_decision-Recorded pool s s' u h =
      let (s1, s2, run, same, time, kept, _, _) =
        with_tenant_tx-Returns pool org (decide_tx digest org d request_id) s s' u h in
      subst (λ at. Recorded at s.db s'.db) time
        (subst (λ db. Recorded s1.clock db s'.db) same
          (subst (λ db. Recorded s1.clock s1.db db) (sym kept) (decide_tx-Recorded s1 s2 u run)))
