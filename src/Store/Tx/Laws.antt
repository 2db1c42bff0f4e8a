-- ===== src/Store/Tx/Laws.antt =====
-- What a successful transaction has done, step by step, and that a failed one has done nothing.
use webmcp_backend.Common.{
  ℕ, ◌≡◌, ◌⊎◌, refl, inl, inr, Result-cases, String, Bool, true, List, [], ◌∷◌, arith, Result, ok,
  err,
}
use webmcp_backend.Domain.Core.{Ident, IsIdent, validate_id-Passes}
pub use webmcp_backend.Common.Io.Laws.{Returns, bind-Returns, lift-Returns, reject-Returns}
use webmcp_backend.Store.Tables.{Db}
use webmcp_backend.Store.Tx.{
  Session, Tx, Fault, fine, fails, lost, statement, query, now, commit, finish, open_and_run,
  with_tenant_tx,
}

-- What a statement that returns has found and left.
module _ {F A : Type 0} where
  pub statement-Returns :
      (label : String) (f : Db F → Result (A × Db F)) (s s' : Session F) (a : A)
      → Returns (statement label f) s a s'
      → (f s.db ≡ ok (a, s'.db)) × (s'.clock ≡ s.clock)
  unfolding statement
  statement-Returns label f s s' a h = (ground arith, ground arith)

  pub query-Returns :
      (label : String) (f : Db F → Result A) (s s' : Session F) (a : A)
      → Returns (query label f) s a s'
      → (f s.db ≡ ok a) × (s'.db ≡ s.db) × (s'.clock ≡ s.clock)
  unfolding query
  query-Returns label f s s' a h = (ground arith, ground arith, ground arith)

pub now-Returns :
    {F : Type 0} (s s' : Session F) (at : ℕ) → Returns now s at s' → (s' ≡ s) × (at ≡ s.clock)
unfolding now
now-Returns s s' at h = (ground arith, ground arith)

commit_kept_or_not :
    {F A : Type 0} (faults : List Fault) (a : A) (before : Db F) (s : Session F)
    → ((commit faults a before s).1.db ≡ before) ⊎ ((commit faults a before s).1.db ≡ s.db)
commit_kept_or_not [] a before s = inr refl
commit_kept_or_not (fine ∷ rest) a before s = inr refl
commit_kept_or_not (fails ∷ rest) a before s = inl refl
commit_kept_or_not (lost ∷ rest) a before s = inr refl

kept_or_not :
    {F A : Type 0} (a : A) (s : Session F) (r : Result A × Session F)
    → r.0 ≡ ok a
    → ((finish s.db r).1.db ≡ s.db) ⊎ ((finish s.db r).1.db ≡ r.1.db)
kept_or_not a s (ok b, s2) e = commit_kept_or_not s2.faults b s.db s2
kept_or_not a s (err x, s2) e = inl refl

module _ {F A : Type 0} (pool : Bool) (org : Ident) (f : Tx F A) where
  open_and_run-Returns :
      (s s' : Session F) (a : A)
      → Returns (open_and_run pool org f) s a s'
      → (s1 : Session F) × Returns f s1 a s'
        × (s1.db ≡ s.db)
        × (s1.clock ≡ s.clock)
        × (pool ≡ true)
        × IsIdent org
  unfolding open_and_run
  open_and_run-Returns s s' a h =
      let (u1, s1, h1, k1) = bind-Returns _ _ s s' a h in
      let (u2, s2, h2, k2) = bind-Returns _ _ s1 s' a k1 in
      let (u3, s3, h3, k3) = bind-Returns _ _ s2 s' a k2 in
      let (u4, s4, h4, k4) = bind-Returns _ _ s3 s' a k3 in
      let (valid, e1) = lift-Returns _ s s1 u1 h1 in
      let (present, e2) = reject-Returns _ _ s1 s2 u2 h2 in
      let (_, e3, c3) = query-Returns _ _ s2 s3 u3 h3 in
      let (_, e4, c4) = query-Returns _ _ s3 s4 u4 h4 in
      (
        s4,
        k4,
        cc (e1, e2, e3, e4),
        cc (e1, e2, c3, c4),
        ground (arith, present),
        (validate_id-Passes org "organization_id").0 valid,
      )

  -- A transaction that returns ran its callback to the end, in a database of the same content,
  -- and left what the callback left.
  pub with_tenant_tx-Returns :
      (s s' : Session F) (a : A)
      → Returns (with_tenant_tx pool org f) s a s'
      → (s1 : Session F) × (s2 : Session F) × Returns f s1 a s2
        × (s1.db ≡ s.db)
        × (s1.clock ≡ s.clock)
        × (s'.db ≡ s2.db)
        × (pool ≡ true)
        × IsIdent org
  unfolding with_tenant_tx
  with_tenant_tx-Returns s s' a h = elim (Result-cases (open_and_run pool org f s).0) [
    | inl (b, e) ↦
        let k : Returns (open_and_run pool org f) s a (open_and_run pool org f s).1 =
          ground (arith, e) in
        let (s1, run, same, clock, present, ident) =
          open_and_run-Returns s (open_and_run pool org f s).1 a k in
        (s1, (open_and_run pool org f s).1, run, same, clock, ground (arith, e), present, ident)
    | inr (x, e) ↦ absurd (ground (arith, e))
  ]

  -- Whatever goes wrong, a transaction leaves the database as it was, or as a callback that ran to
  -- its end left it.
  pub with_tenant_tx_atomic :
      (s : Session F)
      → ((with_tenant_tx pool org f s).1.db ≡ s.db)
        ⊎ ((a : A) × (s1 : Session F) × (s2 : Session F) × Returns f s1 a s2
            × (s1.db ≡ s.db)
            × ((with_tenant_tx pool org f s).1.db ≡ s2.db))
  unfolding with_tenant_tx
  with_tenant_tx_atomic s = elim (Result-cases (open_and_run pool org f s).0) [
    | inl (a, e) ↦
        let k : Returns (open_and_run pool org f) s a (open_and_run pool org f s).1 =
          ground (arith, e) in
        let (s1, run, same, _, _, _) = open_and_run-Returns s (open_and_run pool org f s).1 a k in
        elim (kept_or_not a s (open_and_run pool org f s) e) [
          | inl undone ↦ inl undone
          | inr kept ↦ inr (a, s1, (open_and_run pool org f s).1, run, same, kept)
        ]
    | inr (x, e) ↦ inl (ground (arith, e))
  ]
