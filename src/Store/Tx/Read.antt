-- ===== src/Store/Tx/Read.antt =====
-- internal/platform/postgres/tenant_tx.go: a transaction that only reads.
use webmcp_backend.Common.{◌≡◌, String, true, [], arith, Result, Result-cases, inl, inr}
use webmcp_backend.Domain.Core.{Ident, IsIdent, validate_id-Passes}
use webmcp_backend.Store.Tables.{Db}
use webmcp_backend.Store.Tx.{
  Session, ◌>>=◌, lift, reject, statement, query, open_and_run, with_tenant_tx,
}

-- Where nothing goes wrong, a transaction of one query answers it and leaves the session alone.
pub query_tx :
    {F A : Type 0} (org : Ident) (label : String) (f : Db F → Result A) (s : Session F)
    → IsIdent org
    → s.faults ≡ []
    → with_tenant_tx true org (query label f) s ≡ (f s.db, s)
unfolding with_tenant_tx open_and_run ◌>>=◌ lift reject query statement
query_tx org label f s ident fine =
    let valid = (validate_id-Passes org "organization_id").1 ident in
    elim (Result-cases (f s.db)) [
      | inl (a, e) ↦ ground (arith, valid, e, fine)
      | inr (x, e) ↦ ground (arith, valid, e, fine)
    ]
