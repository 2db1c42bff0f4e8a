-- ===== src/Store/Commits/Replay.antt =====
-- What a commit that returns has done.
use webmcp_backend.Common.{
  ℕ, ◌≡◌, ◌⊎◌, sym, ◌∙◌, ap, inl, inr, String, Bool, true, Option, some, none, [], arith, eq_iff,
  ok, Passes,
}
use mathlib.Core.Path.{subst}
use webmcp_backend.Common.Text.{trim}
use webmcp_backend.Domain.Core.{validate_id, validate_ids}
use webmcp_backend.Domain.Commit
use webmcp_backend.Domain.Commit.{ValidationInput, validate}
use webmcp_backend.Domain.Commit.Gate.{validate-Passes}
use webmcp_backend.Store.Tables.{ProposalRow, VersionRow, ApprovalRow, OperationRow, Db}
use webmcp_backend.Store.Tx.{Session, ◌>>=◌, lift, query, reject, with_tenant_tx}
use webmcp_backend.Store.Tx.Laws.{
  Returns, bind-Returns, query-Returns, lift-Returns, reject-Returns, with_tenant_tx-Returns,
  with_tenant_tx_atomic,
}
use webmcp_backend.Store.Commits.Rows.{
  CommitInput, CommitOutcome, version_or_zero, find_operation, validate_commit_input,
}
use webmcp_backend.Store.Commits.Writes.{decision_id}
use webmcp_backend.Store.Commits.Transaction.{
  gate_input, answer_existing, execute_new, commit_tx, commit,
}

-- The gate refuses the aggregate that the transaction rebuilds: its goal is empty.
gate_refuses :
    (F : Type 0) (i : CommitInput) (now current : ℕ) (p : ProposalRow) (v : VersionRow)
    (a : ApprovalRow)
    → ¬ (Passes (validate (gate_input {F = F} i now current p v a)))
unfolding gate_input trim
gate_refuses F i now current p v a h =
    let c = (validate-Passes (gate_input {F = F} i now current p v a)).0 h in
    cc (c.proposal.goal.not_blank)

valid_organization :
    (i : CommitInput)
    → Passes (validate_commit_input i)
    → Passes (validate_id i.organization_id "organization_id")
unfolding validate_commit_input validate_ids
valid_organization i h = ground arith

module _ {F : Type 0} (digest : String → String) (i : CommitInput) (now : ℕ) where
  execute_new-never :
      (s s' : Session F) (out : CommitOutcome) → ¬ (Returns (execute_new digest i now) s out s')
  unfolding execute_new
  execute_new-never s s' out h =
      let (_, s1, _, k1) = bind-Returns _ _ s s' out h in
      let (b, s2, _, k2) = bind-Returns _ _ s1 s' out k1 in
      let (u, s3, _, k3) = bind-Returns _ _ s2 s' out k2 in
      let (_, s4, _, k4) = bind-Returns _ _ s3 s' out k3 in
      let (found, s5, _, k5) = bind-Returns _ _ s4 s' out k4 in
      let (a, s6, _, k6) = bind-Returns _ _ s5 s' out k5 in
      let (t, s7, gate, _) = bind-Returns _ _ s6 s' out k6 in
      gate_refuses F i now b.state_version found.0 found.1 a (lift-Returns _ s6 s7 t gate).0

  -- The recorded operation that an outcome repeats.
  pub record Repeats (db : Db F) (out : CommitOutcome) : Type 0 where
    pub operation : OperationRow
    pub recorded : find_operation i.organization_id i.idempotency_key db ≡ some operation
    pub same_id : operation.id ≡ i.operation_id
    pub same_proposal : operation.proposal_id ≡ i.proposal_id
    pub same_version : operation.proposal_version_id ≡ i.proposal_version_id
    pub same_business : operation.business_id ≡ i.business_id
    pub same_status : out.status ≡ operation.status
    pub replayed : out.replayed ≡ true
    pub version :
        ((out.status ≡ Commit.Status.succeeded)
          × (out.committed_business_version ≡ version_or_zero operation.committed_business_version))
        ⊎ (out.status ≡ Commit.Status.failed)

  answer_existing-Repeats :
      (o : OperationRow) (s s' : Session F) (out : CommitOutcome)
      → find_operation i.organization_id i.idempotency_key s.db ≡ some o
      → Returns (answer_existing digest i now o) s out s'
      → Repeats s.db out × (s'.db ≡ s.db)
  unfolding answer_existing
  answer_existing-Repeats o s s' out found h =
      let (u, s1, guard, k) = bind-Returns _ _ s s' out h in
      let (same, e1) = reject-Returns _ _ s s1 u guard in
      let (answer, e2) = lift-Returns _ s1 s' out k in
      (
        record {
          operation = o;
          recorded = found;
          same_id = ground (arith, same, eq_iff o.id i.operation_id);
          same_proposal = ground (arith, same, eq_iff o.proposal_id i.proposal_id);
          same_version = ground (arith, same, eq_iff o.proposal_version_id i.proposal_version_id);
          same_business = ground (arith, same, eq_iff o.business_id i.business_id);
          same_status = ground (arith, answer);
          replayed = ground (arith, answer);
          version = ground (arith, answer);
        },
        ap (λ (t : Session F). t.db) (e2 ∙ e1),
      )

  commit_tx-Repeats :
      (s s' : Session F) (out : CommitOutcome)
      → Returns (commit_tx digest i now) s out s'
      → Repeats s.db out × (s'.db ≡ s.db)
  unfolding commit_tx
  commit_tx-Repeats s s' out h =
      let (existing, s1, read, k) = bind-Returns _ _ s s' out h in
      let (found, same, _) = query-Returns _ _ s s1 existing read in
      go existing s1 (ground (arith, found)) same k
    where
      go :
          (existing : Option OperationRow) (s1 : Session F)
          → find_operation i.organization_id i.idempotency_key s.db ≡ existing
          → s1.db ≡ s.db
          → Returns
              (elim existing [
                | none ↦ execute_new digest i now
                | some o ↦ answer_existing digest i now o
              ])
              s1
              out
              s'
          → Repeats s.db out × (s'.db ≡ s.db)
      go none s1 found same k = absurd (execute_new-never s1 s' out k)
      go (some o) s1 found same k =
          let (r, e) =
            answer_existing-Repeats o s1 s' out
              (ap (find_operation i.organization_id i.idempotency_key) same ∙ found) k in
          (rw (sym same) r, e ∙ same)

  -- A commit that returns repeats the outcome of an operation that is already recorded under its
  -- idempotency key with the same identifiers, and leaves the database as it was.
  pub commit-Repeats :
      (pool : Bool) (s s' : Session F) (out : CommitOutcome)
      → Returns (commit digest i now pool) s out s'
      → Repeats s.db out × (s'.db ≡ s.db)
  unfolding commit
  commit-Repeats pool s s' out h =
      let (_, s0, checked, k) = bind-Returns _ _ s s' out h in
      let (_, e0) = lift-Returns _ s s0 _ checked in
      let (s1, s2, run, same, _, kept, _, _) =
        with_tenant_tx-Returns pool i.organization_id (commit_tx digest i now) s0 s' out k in
      let (r, e) = commit_tx-Repeats s1 s2 out run in
      let before : s1.db ≡ s.db = same ∙ ap (λ (t : Session F). t.db) e0 in
      (subst (λ db. Repeats db out) before r, kept ∙ e ∙ before)

  -- No commit changes the database, since the gate refuses every new one: the proposal that the
  -- transaction rebuilds has no goal, which its validation requires.
  pub db-commit : (pool : Bool) (s : Session F) → (commit digest i now pool s).1.db ≡ s.db
  db-commit pool s =
      elim (with_tenant_tx_atomic pool i.organization_id (commit_tx digest i now) s) [
        | inl undone ↦ unfold commit ◌>>=◌ lift in ground (arith, undone)
        | inr (out, s1, s2, run, same, kept) ↦
            let (_, e) = commit_tx-Repeats s1 s2 out run in
            unfold commit ◌>>=◌ lift in ground (arith, kept, e, same)
      ]

  -- A commit under an idempotency key that no operation of the organization has never returns: the
  -- proposal that the transaction rebuilds has no goal, and the gate refuses it.
  pub new_commit_refused :
      (pool : Bool) (s s' : Session F) (out : CommitOutcome)
      → find_operation i.organization_id i.idempotency_key s.db ≡ none
      → ¬ (Returns (commit digest i now pool) s out s')
  new_commit_refused pool s s' out absent h =
      let (r, _) = commit-Repeats pool s s' out h in cc (absent, r.recorded)

  -- With a valid input, a connection and no fault, a commit whose operation is recorded as
  -- succeeded returns the recorded version, and the session is as it was.
  pub replay_succeeds :
      (s : Session F) (o : OperationRow)
      → Passes (validate_commit_input i)
      → s.faults ≡ []
      → find_operation i.organization_id i.idempotency_key s.db ≡ some o
      → o.id ≡ i.operation_id
      → o.proposal_id ≡ i.proposal_id
      → o.proposal_version_id ≡ i.proposal_version_id
      → o.business_id ≡ i.business_id
      → o.status ≡ Commit.Status.succeeded
      → commit digest i now true s ≡ (
        ok (record {
          operation_id = i.operation_id;
          decision_id = decision_id digest i;
          status = Commit.Status.succeeded;
          committed_business_version = version_or_zero o.committed_business_version;
          replayed = true;
        }),
        s,
      )
  unfolding commit commit_tx answer_existing with_tenant_tx ◌>>=◌ lift query reject
  replay_succeeds s o valid no_faults found e1 e2 e3 e4 e5 = ground (
    arith,
    valid_organization i valid,
    (eq_iff o.id i.operation_id).1 e1,
    (eq_iff o.proposal_id i.proposal_id).1 e2,
    (eq_iff o.proposal_version_id i.proposal_version_id).1 e3,
    (eq_iff o.business_id i.business_id).1 e4,
  )
