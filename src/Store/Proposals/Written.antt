-- ===== src/Store/Proposals/Written.antt =====
-- internal/platform/postgres/proposal_repository.go: what the operations have checked and written
-- where they return.
use webmcp_backend.Common.{
  ℕ, ◌≡◌, sym, String, Bool, true, List, [], ◌∷◌, nat_eq, string_eq, arith, ok, any, ap,
}
use mathlib.Core.Path.{subst}
use webmcp_backend.Common.Int.{pos, pos_part}
use webmcp_backend.Domain.Core.{Ident}
use webmcp_backend.Domain.Proposal.{Proposal, Version}
use webmcp_backend.Store.Tables.{ProposalRow, Db}
use webmcp_backend.Store.Sql.{find_user}
use webmcp_backend.Store.Tx.{Session}
use webmcp_backend.Store.Tx.Laws.{
  Returns, bind-Returns, now-Returns, statement-Returns, reject-Returns, with_tenant_tx-Returns,
}
use webmcp_backend.Store.Proposals.Rows.{version_row, may_act, refuses_version, insert_version}
use webmcp_backend.Store.Proposals.Operations.{
  proposal_event, insert_proposal_audit, append_proposal_audit, proposable, insert_proposal,
  create_proposal_tx, create_proposal,
}

abbrev pub new_row : Ident → Proposal → ProposalRow
new_row org c = record {
  id = c.id;
  organization_id = org;
  business_id = c.business_id;
  goal_id = c.goal_id;
  current_version_number = 1;
}

pub insert_version_lem :
    {F : Type 0} (org : Ident) (label : String) (id : Ident) (v : Version) (db db' : Db F)
    → insert_version org label id v db ≡ ok (tt, db')
    → (db' ≡ record db { versions = version_row org id v ∷ db.versions })
      × (pos (pos_part v.number) ≡ v.number)
unfolding insert_version refuses_version
insert_version_lem org label id v db db' h = (ground arith, ground arith)

module _ {F : Type 0} (digest : String → String) (guest : Bool) (org actor_id : Ident)
    (request_id : String) where
  insert_proposal_lem :
      (c : Proposal) (n : ℕ) (db db' : Db F)
      → n ≡ 1
      → insert_proposal digest guest org actor_id request_id c db ≡ ok (n, db')
      → (db' ≡ record db { proposals = new_row org c ∷ db.proposals })
        × (any (proposable digest guest org actor_id request_id c) db.scenarios ≡ true)
        × (may_act guest (find_user org actor_id db) ≡ true)
  unfolding insert_proposal
  insert_proposal_lem c n db db' one h = (ground arith, ground arith, ground arith)

  pub append_proposal_audit_lem :
      (id : Ident) (action : String) (metadata : List (String × String)) (s s' : Session F)
      (u : Unit {0})
      → Returns
          (append_proposal_audit digest guest org actor_id request_id id action metadata)
          s
          u
          s'
      → s'.db ≡ record (s.db) {
        audit =
            proposal_event digest org actor_id request_id id action metadata s.clock ∷ s.db.audit;
      }
  unfolding append_proposal_audit insert_proposal_audit
  append_proposal_audit_lem id action metadata s s' u h =
      let (_, s1, h1, k1) = bind-Returns _ _ s s' u h in
      let (at, s2, h2, k2) = bind-Returns _ _ s1 s' u k1 in
      let (_, e1) = reject-Returns _ _ s s1 _ h1 in
      let (e2, c2) = now-Returns s1 s2 at h2 in
      let (e3, _) = statement-Returns _ _ s2 s' u k2 in ground (arith, e1, e2, c2, e3)

  pub record Inserted (c : Proposal) (at : ℕ) (before after : Db F) : Type 0 where
    pub from_scenario :
        any (proposable digest guest org actor_id request_id c) before.scenarios ≡ true
    pub actor : may_act guest (find_user org actor_id before) ≡ true
    pub numbered : pos (pos_part c.current.number) ≡ c.current.number
    pub effect : after ≡ record before {
      proposals = new_row org c ∷ before.proposals;
      versions = version_row org c.id c.current ∷ before.versions;
      audit =
          proposal_event digest org actor_id request_id c.id "proposal_created"
            (("proposal_version_id", c.current.id) ∷ [])
            at
          ∷ before.audit;
    }

  pub create_proposal_tx-Inserted :
      (c : Proposal) (s s' : Session F) (u : Unit {0})
      → Returns (create_proposal_tx digest guest org actor_id request_id c) s u s'
      → Inserted c s.clock s.db s'.db
  unfolding create_proposal_tx
  create_proposal_tx-Inserted c s s' u h =
      let (n, s1, h1, k1) = bind-Returns _ _ s s' u h in
      let (_, s2, h2, k2) = bind-Returns _ _ s1 s' u k1 in
      let (_, s3, h3, k3) = bind-Returns _ _ s2 s' u k2 in
      let (e1, c1) = statement-Returns _ _ s s1 n h1 in
      let (one, e2) = reject-Returns _ _ s1 s2 _ h2 in
      let (e3, c3) = statement-Returns _ _ s2 s3 _ h3 in
      let (inserted, source, actor) = insert_proposal_lem c n s.db s1.db (ground (arith, one)) e1 in
      let (versioned, numbered) = insert_version_lem org _ c.id c.current s2.db s3.db e3 in
      let audited = append_proposal_audit_lem c.id _ _ s3 s' u k3 in
      let same : s2.db ≡ s1.db = ap (λ (x : Session F). x.db) e2 in
      let time : s3.clock ≡ s.clock = cc (c1, e2, c3) in
      record {
        from_scenario = source;
        actor = actor;
        numbered = numbered;
        effect = ground (arith, inserted, versioned, audited, same, time);
      }

  -- A proposal that is created has a scenario of its business and goal that has been simulated,
  -- and an actor who may propose; the proposal, its version and one audit event are added to the
  -- tables, and nothing else changes.
  pub create_proposal-Inserted :
      (pool : Bool) (c : Proposal) (s s' : Session F) (u : Unit {0})
      → Returns (create_proposal digest guest org actor_id request_id pool c) s u s'
      → Inserted c s.clock s.db s'.db
  unfolding create_proposal
  create_proposal-Inserted pool c s s' u h =
      let (s1, s2, run, same, time, kept, _, _) =
        with_tenant_tx-Returns pool org (create_proposal_tx digest guest org actor_id request_id c)
          s s' u h in
      subst (λ at. Inserted c at s.db s'.db) time
        (subst (λ db. Inserted c s1.clock db s'.db) same
          (subst (λ db. Inserted c s1.clock s1.db db) (sym kept)
            (create_proposal_tx-Inserted c s1 s2 u run)))
