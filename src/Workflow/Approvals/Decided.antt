-- ===== src/Workflow/Approvals/Decided.antt =====
-- What a decision that the approval service returns has checked and recorded.
use webmcp_backend.Common.{
  ℕ, ◌≡◌, refl, Bool, false, not, ◌&&◌, ◌||◌, ◌==◌, ltb, ok-injective, ◌⊎◌, ◌≤◌, ◌∙◌, sym, ap,
  String, Option, some, arith,
}
use Prim.Native.String.{len}
use mathlib.Core.Option.{some-injective}
use mathlib.Core.Path.{subst}
use webmcp_backend.Common.Text.{trim, is_empty, is_blank, NotBlank}
use webmcp_backend.Common.Io.{Io}
use webmcp_backend.Common.Io.Laws.{Returns, bind-Returns, lift-Returns, reject-Returns}
use webmcp_backend.Domain.Core.{Ident}
use webmcp_backend.Domain.Approval
use webmcp_backend.Domain.Approval.{Decision, status_eq, status_beq_iff, validate_decision}
use webmcp_backend.Domain.Approval.Validity.{IsDecision, validate_decision-Passes}
use webmcp_backend.Workflow.Ports.{ApprovalRepository, Random}
use webmcp_backend.Workflow.Ports.Laws.{required-Returns, fresh_id-Returns}
use webmcp_backend.Workflow.Approvals.{DecisionInput, decision_for, decide}
use webmcp_backend.Store.Tx.{Session}
use webmcp_backend.Store.Approvals.{record_decision}
use webmcp_backend.Store.Approvals.Recorded.{Recorded, record_decision-Recorded}

-- The decision that an input asks for, with an identifier of its own.
pub record Answers (i : DecisionInput) (d : Decision) : Type 0 where
  pub same_proposal : d.proposal_id ≡ i.proposal_id
  pub same_version : d.proposal_version_id ≡ i.proposal_version_id
  pub same_business : d.business_id ≡ i.business_id
  pub by_actor : d.decided_by ≡ i.actor_id
  pub same_status : d.status ≡ i.status
  pub final_status : (d.status ≡ Approval.Status.approved) ⊎ (d.status ≡ Approval.Status.rejected)
  pub the_reason : d.reason ≡ trim i.reason
  pub short_reason : len d.reason ≤ 2000
  pub requested : NotBlank i.request_id

decision_for-Answers :
    (i : DecisionInput) (id : Ident)
    → (not (i.status == Approval.Status.approved) && not (i.status == Approval.Status.rejected))
      ≡ false
    → (is_empty (trim i.reason) || ltb 2000 (len (trim i.reason)) || is_blank i.request_id) ≡ false
    → Answers i (decision_for i id)
unfolding decision_for
decision_for-Answers i id g h = record {
  same_proposal = refl;
  same_version = refl;
  same_business = refl;
  by_actor = refl;
  same_status = refl;
  final_status = ground (
    arith,
    g,
    status_beq_iff i.status Approval.Status.approved,
    status_beq_iff i.status Approval.Status.rejected,
  );
  the_reason = refl;
  short_reason = ground (arith, h);
  requested = ground (arith, h);
}

module _ {W : Type 0} (random : Random W) (now : Io W ℕ)
    (repository : Option (ApprovalRepository W)) where
  -- The world in which the repository was called, and what it was called with.
  pub record Decided (i : DecisionInput) (d : Decision) (w w' : W) : Type 0 where
    pub port : ApprovalRepository W
    pub wired : repository ≡ some port
    pub at : ℕ
    pub before : W
    pub told : Returns now (random w).1 at before
    pub answers : Answers i d
    pub valid : IsDecision d at
    pub recorded : Returns (port.record_decision i.organization_id d i.request_id) before tt w'

  -- A decision that the service returns answers the input, approves or rejects, gives a reason
  -- within its limit, is valid, and is the one that the repository has recorded.
  pub decide-Decided :
      (i : DecisionInput) (d : Decision) (w w' : W)
      → Returns (decide random now repository i) w d w'
      → Decided i d w w'
  unfolding decide
  decide-Decided i d w w' h =
      let (_, w1, h1, k1) = bind-Returns _ _ w w' d h in
      let (_, w2, h2, k2) = bind-Returns _ _ w1 w' d k1 in
      let (_, w3, h3, k3) = bind-Returns _ _ w2 w' d k2 in
      let (port, w4, h4, k4) = bind-Returns _ _ w3 w' d k3 in
      let (id, w5, h5, k5) = bind-Returns _ _ w4 w' d k4 in
      let (at, w6, h6, k6) = bind-Returns _ _ w5 w' d k5 in
      let (u, w7, h7, k7) = bind-Returns _ _ w6 w' d k6 in
      let (_, w8, h8, k8) = bind-Returns _ _ w7 w' d k7 in
      let (_, e1) = lift-Returns _ w w1 _ h1 in
      let (g2, e2) = reject-Returns _ _ w1 w2 _ h2 in
      let (g3, e3) = reject-Returns _ _ w2 w3 _ h3 in
      let (wired, e4) = required-Returns _ repository w3 w4 port h4 in
      let (_, e5) = fresh_id-Returns random "approval" w4 w5 id h5 in
      let (valid, e7) = lift-Returns _ w6 w7 u h7 in
      let (done, e8) = lift-Returns _ w8 w' d k8 in
      let start : w4 ≡ w = e4 ∙ e3 ∙ e2 ∙ e1 in
      let clock : w5 ≡ (random w).1 = e5 ∙ ap (λ v. (random v).1) start in
      let found : Decided i (decision_for i id) w w8 = record {
        port = port;
        wired = wired;
        at = at;
        before = w6;
        told = subst (λ v. Returns now v at w6) clock h6;
        answers = decision_for-Answers i id g2 g3;
        valid = (validate_decision-Passes (decision_for i id) at).0 valid;
        recorded =
            subst
              (λ v.
                Returns (port.record_decision i.organization_id (decision_for i id) i.request_id) v
                  tt w8)
              e7 h8;
      } in
      subst (λ v. Decided i d w v) (sym e8)
        (subst (λ x. Decided i x w w8) (ok-injective done) found)

-- The PostgreSQL repository, as the service's port.
abbrev pub postgres_approvals :
    {F : Type 0} → (String → String) → Bool → ApprovalRepository (Session F)
postgres_approvals digest pool = record {
  record_decision = λ org d request_id. record_decision digest org d request_id pool;
}

-- Over the PostgreSQL repository, with a source of randomness and a clock that leave the database
-- alone, a decision that the service returns is recorded in the database for the input's
-- organization.
pub decide-Recorded :
    {F : Type 0} (digest : String → String) (pool : Bool) (random : Random (Session F))
    (now : Io (Session F) ℕ) (i : DecisionInput) (d : Decision) (s s' : Session F)
    → ((t : Session F) → (random t).1.db ≡ t.db)
    → ((t : Session F) → (now t).1.db ≡ t.db)
    → Returns (decide random now (some (postgres_approvals digest pool)) i) s d s'
    → (at : ℕ) × Recorded digest i.organization_id d i.request_id at s.db s'.db
decide-Recorded digest pool random now i d s s' random_keeps now_keeps h =
    let c = decide-Decided random now (some (postgres_approvals digest pool)) i d s s' h in
    let same : c.before.db ≡ s.db = told_keeps (random s).1 c.before c.at c.told ∙ random_keeps s in
    let run : Returns (record_decision digest i.organization_id d i.request_id pool) c.before tt
        s' =
      subst
        (λ (port : ApprovalRepository (Session _)).
          Returns (port.record_decision i.organization_id d i.request_id) c.before tt s')
        (sym (some-injective _ _ c.wired)) c.recorded in
    (
      c.before.clock,
      subst (λ db. Recorded digest i.organization_id d i.request_id c.before.clock db s'.db) same
          (record_decision-Recorded digest i.organization_id d i.request_id pool c.before s' tt
            run),
    )
  where
    told_keeps : (t t' : Session _) (at : ℕ) → Returns now t at t' → t'.db ≡ t.db
    told_keeps t t' at e = sym (ap (λ r. r.1.db) e) ∙ now_keeps t
