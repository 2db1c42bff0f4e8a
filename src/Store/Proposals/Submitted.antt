-- ===== src/Store/Proposals/Submitted.antt =====
-- internal/platform/postgres/proposal_repository.go: a draft that is submitted for review.
use webmcp_backend.Common.{ℕ, ◌≡◌, sym, String, Bool, true, [], ◌∷◌, arith, nat_eq}
use mathlib.Core.Path.{subst}
use webmcp_backend.Common.Text.Decimal.{decimal}
use webmcp_backend.Domain.Core.{Ident}
use webmcp_backend.Domain.Proposal
use webmcp_backend.Store.Tables.{Db}
use webmcp_backend.Store.Sql.{count_where, update_where, find_user}
use webmcp_backend.Store.Tx.{Session}
use webmcp_backend.Store.Tx.Laws.{
  Returns, bind-Returns, query-Returns, statement-Returns, reject-Returns, with_tenant_tx-Returns,
}
use webmcp_backend.Store.Proposals.Rows.{is_draft, may_act}
use webmcp_backend.Store.Proposals.Operations.{proposal_event, submit_review_tx, submit_review}
use webmcp_backend.Store.Proposals.Written.{append_proposal_audit_lem}
use webmcp_backend.Store.Proposals.Revised.{require_proposal_operator-Returns, move_draft_lem}

module _ {F : Type 0} (digest : String → String) (guest : Bool) (org actor_id : Ident)
    (request_id : String) where
  pub record Submitted (id : Ident) (expected at : ℕ) (before after : Db F) : Type 0 where
    pub actor : may_act guest (find_user org actor_id before) ≡ true
    pub one_draft : count_where (is_draft org id expected) before.versions ≡ 1
    pub effect : after ≡ record before {
      versions =
          update_where
            (is_draft org id expected)
            (λ v. record v { status = Proposal.Status.in_review })
            before.versions;
      audit =
          proposal_event digest org actor_id request_id id "proposal_submitted_for_review"
            (("proposal_version_number", decimal expected) ∷ [])
            at
          ∷ before.audit;
    }

  pub submit_review_tx-Submitted :
      (id : Ident) (expected : ℕ) (s s' : Session F) (u : Unit {0})
      → Returns (submit_review_tx digest guest org actor_id request_id id expected) s u s'
      → Submitted id expected s.clock s.db s'.db
  unfolding submit_review_tx
  submit_review_tx-Submitted id expected s s' u h =
      let (_, s1, h1, k1) = bind-Returns _ _ s s' u h in
      let (n, s2, h2, k2) = bind-Returns _ _ s1 s' u k1 in
      let (_, s3, h3, k3) = bind-Returns _ _ s2 s' u k2 in
      let (_, s4, h4, k4) = bind-Returns _ _ s3 s' u k3 in
      let (actor, e1, c1) =
        require_proposal_operator-Returns digest guest org actor_id request_id s s1 _ h1 in
      let (e2, c2) = statement-Returns _ _ s1 s2 n h2 in
      let (one, e3) = reject-Returns _ _ s2 s3 _ h3 in
      let (_, e4, c4) = query-Returns _ _ s3 s4 _ h4 in
      let (count, moved) =
        move_draft_lem digest guest org actor_id request_id _ Proposal.Status.in_review id expected
          n s1.db s2.db e2 in
      let audited =
        append_proposal_audit_lem digest guest org actor_id request_id id _ _ s4 s' u k4 in
      let same : s4.db ≡ s2.db = cc (e3, e4) in
      let time : s4.clock ≡ s.clock = cc (c1, c2, e3, c4) in
      record {
        actor = actor;
        one_draft = ground (arith, one, count, e1);
        effect = ground (arith, moved, audited, same, time, e1);
      }

  -- A proposal that is submitted had an actor who may propose and exactly one draft of the number;
  -- that draft is in review, one audit event is added, and nothing else changes.
  pub submit_review-Submitted :
      (pool : Bool) (id : Ident) (expected : ℕ) (s s' : Session F) (u : Unit {0})
      → Returns (submit_review digest guest org actor_id request_id pool id expected) s u s'
      → Submitted id expected s.clock s.db s'.db
  unfolding submit_review
  submit_review-Submitted pool id expected s s' u h =
      let (s1, s2, run, same, time, kept, _, _) =
        with_tenant_tx-Returns pool org
          (submit_review_tx digest guest org actor_id request_id id expected) s s' u h in
      subst (λ at. Submitted id expected at s.db s'.db) time
        (subst (λ db. Submitted id expected s1.clock db s'.db) same
          (subst (λ db. Submitted id expected s1.clock s1.db db) (sym kept)
            (submit_review_tx-Submitted id expected s1 s2 u run)))
