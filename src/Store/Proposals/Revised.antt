-- ===== src/Store/Proposals/Revised.antt =====
-- internal/platform/postgres/proposal_repository.go: a revision that is stored takes the place of
-- the draft that it was made from, and is read back.
use webmcp_backend.Common.{
  ℕ, ◌≡◌, sym, ap, String, Bool, true, false, not, ◌||◌, some, [], ◌∷◌, ◌==◌, nat_eq, string_eq,
  arith, ok, eq_iff,
}
use mathlib.Core.Path.{subst}
use webmcp_backend.Common.Int.{pos, pos_part}
use webmcp_backend.Common.Text.Decimal.{decimal}
use webmcp_backend.Domain.Core.{Ident}
use webmcp_backend.Domain.Proposal
use webmcp_backend.Domain.Proposal.{Proposal, validate_proposal}
use webmcp_backend.Store.Tables.{ProposalRow, Db}
use webmcp_backend.Store.Sql.{count_where, update_where, find_user}
use webmcp_backend.Store.Tx.{Session}
use webmcp_backend.Store.Tx.Laws.{
  Returns, bind-Returns, query-Returns, statement-Returns, reject-Returns, with_tenant_tx-Returns,
}
use webmcp_backend.Store.Proposals.Rows.{version_row, is_draft, is_proposal, may_act, find_proposal}
use webmcp_backend.Store.Proposals.Operations.{
  proposal_event, require_proposal_operator, move_draft, advance_proposal, write_revision,
  save_revision_tx, save_revision,
}
use webmcp_backend.Store.Proposals.Written.{insert_version_lem, append_proposal_audit_lem}

module _ {F : Type 0} (digest : String → String) (guest : Bool) (org actor_id : Ident)
    (request_id : String) where
  pub require_proposal_operator-Returns :
      (s s' : Session F) (u : Unit {0})
      → Returns (require_proposal_operator digest guest org actor_id request_id) s u s'
      → (may_act guest (find_user org actor_id s.db) ≡ true) × (s'.db ≡ s.db) × (s'.clock ≡ s.clock)
  unfolding require_proposal_operator
  require_proposal_operator-Returns s s' u h =
      let (b, s1, h1, k1) = bind-Returns _ _ s s' u h in
      let (e1, same, time) = query-Returns _ _ s s1 b h1 in
      let (g, e2) = reject-Returns _ _ s1 s' u k1 in
      (ground (arith, e1, g), cc (same, e2), cc (time, e2))

  pub move_draft_lem :
      (label : String) (status : Proposal.Status) (id : Ident) (expected n : ℕ) (db db' : Db F)
      → move_draft digest guest org actor_id request_id label status id expected db ≡ ok (n, db')
      → (n ≡ count_where (is_draft org id expected) db.versions)
        × (db' ≡ record db {
          versions =
              update_where
                (is_draft org id expected)
                (λ v. record v { status = status })
                db.versions;
        })
  unfolding move_draft
  move_draft_lem label status id expected n db db' h = (ground arith, ground arith)

  advance_proposal_lem :
      (id : Ident) (number : ℕ) (db db' : Db F)
      → advance_proposal digest guest org actor_id request_id id number db ≡ ok (tt, db')
      → db' ≡ record db {
        proposals =
            update_where
              (is_proposal org id)
              (λ p. record p { current_version_number = number })
              db.proposals;
      }
  unfolding advance_proposal
  advance_proposal_lem id number db db' h = ground arith

  pub record Written (next : Proposal) (expected at : ℕ) (before after : Db F) : Type 0 where
    pub one_draft : count_where (is_draft org next.id expected) before.versions ≡ 1
    pub numbered : pos (pos_part next.current.number) ≡ next.current.number
    pub effect : after ≡ record before {
      proposals =
          update_where
            (is_proposal org next.id)
            (λ p. record p { current_version_number = pos_part next.current.number })
            before.proposals;
      versions =
          version_row org next.id next.current
          ∷ update_where
              (is_draft org next.id expected)
              (λ v. record v { status = Proposal.Status.superseded })
              before.versions;
      audit =
          proposal_event digest org actor_id request_id next.id "proposal_revised"
            (("proposal_version_id", next.current.id)
              ∷ ("superseded_version", decimal expected)
              ∷ [])
            at
          ∷ before.audit;
    }

  write_revision-Written :
      (next : Proposal) (expected : ℕ) (s s' : Session F) (u : Unit {0})
      → Returns (write_revision digest guest org actor_id request_id next expected) s u s'
      → Written next expected s.clock s.db s'.db
  unfolding write_revision
  write_revision-Written next expected s s' u h =
      let (n, s1, h1, k1) = bind-Returns _ _ s s' u h in
      let (_, s2, h2, k2) = bind-Returns _ _ s1 s' u k1 in
      let (_, s3, h3, k3) = bind-Returns _ _ s2 s' u k2 in
      let (_, s4, h4, k4) = bind-Returns _ _ s3 s' u k3 in
      let (e1, c1) = statement-Returns _ _ s s1 n h1 in
      let (one, e2) = reject-Returns _ _ s1 s2 _ h2 in
      let (e3, c3) = statement-Returns _ _ s2 s3 _ h3 in
      let (e4, c4) = statement-Returns _ _ s3 s4 _ h4 in
      let (count, moved) =
        move_draft_lem _ Proposal.Status.superseded next.id expected n s.db s1.db e1 in
      let (versioned, numbered) = insert_version_lem org _ next.id next.current s2.db s3.db e3 in
      let advanced = advance_proposal_lem next.id (pos_part next.current.number) s3.db s4.db e4 in
      let audited =
        append_proposal_audit_lem digest guest org actor_id request_id next.id _ _ s4 s' u k4 in
      let same : s2.db ≡ s1.db = ap (λ (x : Session F). x.db) e2 in
      let time : s4.clock ≡ s.clock = cc (c1, e2, c3, c4) in
      record {
        one_draft = ground (arith, one, count);
        numbered = numbered;
        effect = ground (arith, moved, versioned, advanced, audited, same, time);
      }

  pub record Revised (next : Proposal) (expected at : ℕ) (before after : Db F) : Type 0 where
    pub actor : may_act guest (find_user org actor_id before) ≡ true
    pub locked : ProposalRow
    pub the_proposal : find_proposal org next.id before ≡ some locked
    pub expected_number : locked.current_version_number ≡ expected
    pub same_business : locked.business_id ≡ next.business_id
    pub written : Written next expected at before after

  pub save_revision_tx-Revised :
      (next : Proposal) (expected : ℕ) (s s' : Session F) (u : Unit {0})
      → Returns (save_revision_tx digest guest org actor_id request_id next expected) s u s'
      → Revised next expected s.clock s.db s'.db
  unfolding save_revision_tx
  save_revision_tx-Revised next expected s s' u h =
      let (_, s1, h1, k1) = bind-Returns _ _ s s' u h in
      let (p, s2, h2, k2) = bind-Returns _ _ s1 s' u k1 in
      let (_, s3, h3, k3) = bind-Returns _ _ s2 s' u k2 in
      let (actor, e1, c1) = require_proposal_operator-Returns s s1 _ h1 in
      let (q2, e2, c2) = query-Returns _ _ s1 s2 p h2 in
      let (g3, e3) = reject-Returns _ _ s2 s3 _ h3 in
      let (number, business) = guard p g3 in
      let same : s3.db ≡ s.db = cc (e1, e2, e3) in
      let time : s3.clock ≡ s.clock = cc (c1, c2, e3) in
      record {
        actor = actor;
        locked = p;
        the_proposal = ground (arith, q2, e1);
        expected_number = number;
        same_business = business;
        written =
            subst (λ at. Written next expected at s.db s'.db) time
              (subst (λ db. Written next expected s3.clock db s'.db) same
                (write_revision-Written next expected s3 s' u k3));
      }
    where
      guard :
          (p : ProposalRow)
          → (not (p.current_version_number == expected) || not (p.business_id == next.business_id))
            ≡ false
          → (p.current_version_number ≡ expected) × (p.business_id ≡ next.business_id)
      guard p g = (ground (arith, g), ground (arith, g, eq_iff p.business_id next.business_id))

  -- A revision that is stored had an actor who may propose and was made from the proposal's
  -- current number, for its business, while exactly one version of that number was a draft; the
  -- draft is superseded, the new version is added and becomes the current one, one audit event is
  -- added, and nothing else changes.
  pub save_revision-Revised :
      (pool : Bool) (next : Proposal) (expected : ℕ) (s s' : Session F) (u : Unit {0})
      → Returns (save_revision digest guest org actor_id request_id pool next expected) s u s'
      → Revised next expected s.clock s.db s'.db
  unfolding save_revision
  save_revision-Revised pool next expected s s' u h =
      let (s1, s2, run, same, time, kept, _, _) =
        with_tenant_tx-Returns pool org
          (save_revision_tx digest guest org actor_id request_id next expected) s s' u h in
      subst (λ at. Revised next expected at s.db s'.db) time
        (subst (λ db. Revised next expected s1.clock db s'.db) same
          (subst (λ db. Revised next expected s1.clock s1.db db) (sym kept)
            (save_revision_tx-Revised next expected s1 s2 u run)))
