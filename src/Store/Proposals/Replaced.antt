-- ===== src/Store/Proposals/Replaced.antt =====
-- internal/platform/postgres/proposal_repository.go: a revision that is stored is what a read of
-- the proposal returns afterwards.
use webmcp_backend.Common.{
  ◌≡◌, ◌⊎◌, inl, inr, refl, sym, ap, ◌∙◌, String, Bool, true, some, [], find?, nat_eq, string_eq,
  arith, eq_iff, Passes, if◌then◌else◌, ℕ,
}
use webmcp_backend.Common.Int.{pos, pos_part}
use webmcp_backend.Common.Text.{is_empty}
use webmcp_backend.Domain.Core.{Ident}
use webmcp_backend.Domain.Proposal
use webmcp_backend.Domain.Proposal.{Proposal, validate_proposal}
use webmcp_backend.Store.Tables.{ProposalRow, Db}
use webmcp_backend.Store.Sql.{update_where}
use webmcp_backend.Store.Sql.Laws.{find?-head, find?-true, find?-update, find?-stronger}
use webmcp_backend.Store.Tx.{Session}
use webmcp_backend.Store.Tx.Laws.{Returns, with_tenant_tx-Returns}
use webmcp_backend.Store.Tx.Read.{query_tx}
use webmcp_backend.Store.Proposals.Rows.{
  version_row, is_draft, is_proposal, is_stored, is_current, find_proposal, stored_proposal,
  read_stored, get_proposal,
}
use webmcp_backend.Store.Proposals.Operations.{save_revision_tx, save_revision}
use webmcp_backend.Store.Proposals.RoundTrip.{find_stored-some, read_stored-some}
use webmcp_backend.Store.Proposals.Revised.{save_revision-Revised}

-- The proposal's row after the revision.
abbrev advanced : ProposalRow → Proposal → ProposalRow
advanced p next = record p { current_version_number = pos_part next.current.number }

module _ (org : Ident) (next : Proposal) (p : ProposalRow)
    (row : is_proposal org next.id p ≡ true) where
  replaced_row :
      (business_id : Ident)
      → (business_id ≡ "") ⊎ (business_id ≡ next.business_id)
      → p.business_id ≡ next.business_id
      → is_stored org business_id next.id p ≡ true
  replaced_row business_id (inl e) same = ground (arith, row, ap is_empty e)
  replaced_row business_id (inr e) same =
      ground (arith, row, (eq_iff p.business_id business_id).1 (same ∙ sym e))

  row_advanced :
      is_proposal org next.id p ≡ true
      → (if is_proposal org next.id p then advanced p next else p) ≡ advanced p next
  row_advanced e = ap (λ b. if b then advanced p next else p) e

  same_id : p.id ≡ next.id
  same_id = ground (arith, row, eq_iff p.id next.id)

  replaced_current : is_current org (advanced p next) (version_row org next.id next.current) ≡ true
  replaced_current = ground (arith, (eq_iff org org).1 refl, (eq_iff next.id p.id).1 (sym same_id))

  replaced_result :
      p.business_id ≡ next.business_id
      → p.goal_id ≡ next.goal_id
      → pos (pos_part next.current.number) ≡ next.current.number
      → next.current.proposal_id ≡ next.id
      → pos next.version ≡ next.current.number
      → stored_proposal (advanced p next) (version_row org next.id next.current) ≡ next
  unfolding stored_proposal
  replaced_result business goal numbered same versioned =
      ground (arith, business, goal, numbered, same, versioned, same_id)

module _ {F : Type 0} (digest : String → String) (guest : Bool) (org actor_id : Ident)
    (request_id : String) where
  -- A valid revision of a proposal of the stored goal, with the same number as version, is what a
  -- read of the proposal returns once it is saved, whichever of its business or no business the
  -- read names; from a database of the same content and where nothing goes wrong.
  pub get_proposal-save_revision :
      (pool : Bool) (business_id : Ident) (next : Proposal) (expected : ℕ) (s s' t : Session F)
      → (business_id ≡ "") ⊎ (business_id ≡ next.business_id)
      → Passes (validate_proposal next)
      → next.current.proposal_id ≡ next.id
      → pos next.version ≡ next.current.number
      → ((p : ProposalRow) → find_proposal org next.id s.db ≡ some p → p.goal_id ≡ next.goal_id)
      → Returns (save_revision digest guest org actor_id request_id pool next expected) s tt s'
      → t.db ≡ s'.db
      → t.faults ≡ []
      → Returns (get_proposal org true business_id next.id) t next t
  unfolding get_proposal save_revision find_proposal
  get_proposal-save_revision pool business_id next expected s s' t business valid same versioned
        goal h after fine =
      let done =
        save_revision-Revised digest guest org actor_id request_id pool next expected s s' tt h in
      let (_, _, _, _, _, _, _, ident) =
        with_tenant_tx-Returns pool org
          (save_revision_tx digest guest org actor_id request_id next expected) s s' tt h in
      let p = done.locked in
      let content = after ∙ done.written.effect in
      let row = find?-true (is_proposal org next.id) s.db.proposals p done.the_proposal in
      let before =
        find?-stronger (is_proposal org next.id) (is_stored org business_id next.id) s.db.proposals
          p (λ x e. ground (arith, e))
          (replaced_row org next p row business_id business done.same_business) done.the_proposal in
      let moved =
        find?-update (is_stored org business_id next.id) (is_proposal org next.id)
          (λ x. advanced x next) s.db.proposals p (λ x. refl) before
        ∙ ap some (row_advanced org next p row row) in
      query_tx org _ (read_stored org business_id next.id) t ident fine
      ∙ ap (λ r. (r, t))
          (read_stored-some org business_id next.id t.db (advanced p next)
            (version_row org next.id next.current) next
            (find_stored-some org business_id next.id t.db (advanced p next)
              (version_row org next.id next.current)
              (ap (λ (db : Db F). find? (is_stored org business_id next.id) db.proposals) content
                ∙ moved)
              (ap (λ (db : Db F). find? (is_current org (advanced p next)) db.versions) content
                ∙ find?-head (is_current org (advanced p next))
                    (version_row org next.id next.current)
                    (update_where (is_draft org next.id expected)
                      (λ v. record v { status = Proposal.Status.superseded }) s.db.versions)
                    (replaced_current org next p row)))
            (replaced_result org next p row done.same_business (goal p done.the_proposal)
              done.written.numbered same versioned)
            valid)
