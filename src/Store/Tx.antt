-- ===== src/Store/Tx.antt =====
-- internal/platform/postgres/tenant_tx.go: tenant transactions. A session is the database, the
-- server's clock and what will go wrong: each round trip to the server takes the next fault of the
-- list, and none once the list is at its end.
pub mod Laws
pub mod Read
use webmcp_backend.Common.{
  ℕ, String, Bool, true, false, not, List, [], ◌∷◌, Error, message, wrap, Result, ok, err,
}
pub use webmcp_backend.Common.Io.{Io, ◌>>◌}
unfoldable pub use webmcp_backend.Common.Io.{◌>>=◌, lift, reject}
use webmcp_backend.Domain.Core.{Ident, validate_id}
use webmcp_backend.Store.Tables.{Db}

-- `lost` is a request that the server carries out and whose answer does not arrive.
pub data Fault : Type 0 where
  fine fails lost : Fault

pub record Session (F : Type 0) : Type 0 where
  pub db : Db F
  pub clock : ℕ
  pub faults : List Fault

abbrev pub Tx : Type 0 → Type 0 → Type 0
Tx F A = Io (Session F) A

abbrev pub database_error : Error
database_error = message "database error"

module _ {F A : Type 0} where
  -- What a statement's answer becomes under the next fault; only a commit can be `lost` with an
  -- effect, since any other failure ends in a rollback.
  abbrev pub answer : List Fault → String → Result (A × Db F) → Session F → Result A × Session F
  answer [] label (ok (a, db)) s = (ok a, record s { db = db })
  answer [] label (err e) s = (err e, s)
  answer (fine ∷ rest) label (ok (a, db)) s = (ok a, record s { db = db; faults = rest })
  answer (fine ∷ rest) label (err e) s = (err e, record s { faults = rest })
  answer (_ ∷ rest) label r s = (err (wrap label database_error), record s { faults = rest })

  -- One statement, and the label that the code gives to its failure.
  unfoldable pub statement : String → (Db F → Result (A × Db F)) → Tx F A
  statement label f s = answer s.faults label (f s.db) s

  abbrev keep : Db F → Result A → Result (A × Db F)
  keep db (ok a) = ok (a, db)
  keep db (err e) = err e

  -- A statement that only reads.
  unfoldable pub query : String → (Db F → Result A) → Tx F A
  unfolding statement
  query label f = statement label (λ db. keep db (f db))

-- The server's `now()`.
unfoldable pub now : {F : Type 0} → Tx F ℕ
now s = (ok s.clock, s)

module _ {F A : Type 0} where
  -- `tx.Commit`: the work is kept, refused, or kept without our knowing.
  abbrev pub commit : List Fault → A → Db F → Session F → Result A × Session F
  commit [] a before s = (ok a, s)
  commit (fine ∷ rest) a before s = (ok a, record s { faults = rest })
  commit (fails ∷ rest) a before s =
      (err (wrap "commit transaction" database_error), record s { db = before; faults = rest })
  commit (lost ∷ rest) a before s =
      (err (wrap "commit transaction" database_error), record s { faults = rest })

  -- The deferred rollback, or the commit.
  abbrev pub finish : Db F → Result A × Session F → Result A × Session F
  finish before (ok a, s) = commit s.faults a before s
  finish before (err e, s) = (err e, record s { db = before })

  -- The transaction up to its commit.
  unfoldable pub open_and_run : Bool → Ident → Tx F A → Tx F A
  open_and_run pool organization_id f = do
    lift (validate_id organization_id "organization_id")
    reject (not pool) (message "database is unavailable")
    query "begin transaction" (λ db. ok tt)
    query "set tenant transaction context" (λ db. ok tt)
    f

  -- `WithTenantTxResult`; the tenant setting is the organization that the callback's statements
  -- filter by. `pool` tells whether there is a pool.
  unfoldable pub with_tenant_tx : Bool → Ident → Tx F A → Tx F A
  unfolding open_and_run
  with_tenant_tx pool organization_id f s = finish s.db (open_and_run pool organization_id f s)
