-- ===== src/Store/Proposals/RoundTrip.antt =====
-- internal/platform/postgres/proposal_repository.go: what is written is read back.
use webmcp_backend.Common.{
  ◌≡◌, ◌⊎◌, refl, sym, String, Bool, true, some, [], find?, nat_eq, string_eq, arith, ok, eq_iff,
  ◌∙◌, ap, inl, inr, Passes,
}
use mathlib.Core.Path.{subst}
use webmcp_backend.Common.Int.{pos}
use webmcp_backend.Common.Text.{is_empty}
use webmcp_backend.Domain.Core.{Ident}
use webmcp_backend.Domain.Proposal.{Proposal, validate_proposal}
use webmcp_backend.Store.Tables.{ProposalRow, VersionRow, Db}
use webmcp_backend.Store.Sql.Laws.{find?-head}
use webmcp_backend.Store.Tx.{Session}
use webmcp_backend.Store.Tx.Laws.{Returns, with_tenant_tx-Returns}
use webmcp_backend.Store.Tx.Read.{query_tx}
use webmcp_backend.Store.Proposals.Rows.{
  version_row, is_stored, is_current, stored_proposal, find_stored, read_stored, get_proposal,
}
use webmcp_backend.Store.Proposals.Operations.{create_proposal, create_proposal_tx}
use webmcp_backend.Store.Proposals.Written.{new_row, create_proposal-Inserted}

pub find_stored-some :
    {F : Type 0} (org business_id id : Ident) (db : Db F) (p : ProposalRow) (v : VersionRow)
    → find? (is_stored org business_id id) db.proposals ≡ some p
    → find? (is_current org p) db.versions ≡ some v
    → find_stored org business_id id db ≡ some (p, v)
unfolding find_stored
find_stored-some org business_id id db p v e e' = ground (arith, e, e')

pub read_stored-some :
    {F : Type 0} (org business_id id : Ident) (db : Db F) (p : ProposalRow) (v : VersionRow)
    (q : Proposal)
    → find_stored org business_id id db ≡ some (p, v)
    → stored_proposal p v ≡ q
    → Passes (validate_proposal q)
    → read_stored org business_id id db ≡ ok q
unfolding read_stored
read_stored-some org business_id id db p v q e same valid =
    let valid' = subst (λ x. Passes (validate_proposal x)) (sym same) valid in
    ground (arith, e, valid') ∙ ap ok same

stored-new :
    (org : Ident) (c : Proposal)
    → c.current.number ≡ pos 1
    → c.current.proposal_id ≡ c.id
    → c.version ≡ 1
    → stored_proposal (new_row org c) (version_row org c.id c.current) ≡ c
unfolding stored_proposal
stored-new org c one same first = ground (arith, one, same, first)

is_stored-new :
    (org business_id : Ident) (c : Proposal)
    → (business_id ≡ "") ⊎ (business_id ≡ c.business_id)
    → is_stored org business_id c.id (new_row org c) ≡ true
is_stored-new org business_id c (inl e) =
    ground (arith, (eq_iff org org).1 refl, (eq_iff c.id c.id).1 refl, ap is_empty e)
is_stored-new org business_id c (inr e) = ground (
  arith,
  (eq_iff org org).1 refl,
  (eq_iff c.id c.id).1 refl,
  (eq_iff c.business_id business_id).1 (sym e),
)

is_current-new :
    (org : Ident) (c : Proposal)
    → c.current.number ≡ pos 1
    → is_current org (new_row org c) (version_row org c.id c.current) ≡ true
is_current-new org c one = ground (arith, one, (eq_iff org org).1 refl, (eq_iff c.id c.id).1 refl)

module _ {F : Type 0} (digest : String → String) (guest : Bool) (org actor_id : Ident)
    (request_id : String) where
  -- A first version that is created is what a read of the proposal returns afterwards, whichever
  -- of its business or no business the read names: a valid proposal of version 1, whose current
  -- version has number 1, from a database of the same content and where nothing goes wrong.
  pub get_proposal-create_proposal :
      (pool : Bool) (business_id : Ident) (c : Proposal) (s s' t : Session F)
      → (business_id ≡ "") ⊎ (business_id ≡ c.business_id)
      → Passes (validate_proposal c)
      → c.current.number ≡ pos 1
      → c.current.proposal_id ≡ c.id
      → c.version ≡ 1
      → Returns (create_proposal digest guest org actor_id request_id pool c) s tt s'
      → t.db ≡ s'.db
      → t.faults ≡ []
      → Returns (get_proposal org true business_id c.id) t c t
  unfolding get_proposal create_proposal
  get_proposal-create_proposal pool business_id c s s' t business valid one same first h after
        fine =
      let made = create_proposal-Inserted digest guest org actor_id request_id pool c s s' tt h in
      let (_, _, _, _, _, _, _, ident) =
        with_tenant_tx-Returns pool org (create_proposal_tx digest guest org actor_id request_id c)
          s s' tt h in
      let content = after ∙ made.effect in
      let found =
        find_stored-some org business_id c.id t.db (new_row org c) (version_row org c.id c.current)
          (ap (λ (db : Db F). find? (is_stored org business_id c.id) db.proposals) content
            ∙ find?-head (is_stored org business_id c.id) (new_row org c) s.db.proposals
                (is_stored-new org business_id c business))
          (ap (λ (db : Db F). find? (is_current org (new_row org c)) db.versions) content
            ∙ find?-head (is_current org (new_row org c)) (version_row org c.id c.current)
                s.db.versions (is_current-new org c one)) in
      query_tx org _ (read_stored org business_id c.id) t ident fine
      ∙ ap (λ r. (r, t))
          (read_stored-some org business_id c.id t.db _ _ c found (stored-new org c one same first)
            valid)
