-- ===== src/Domain/Proposal/Validity.antt =====
-- The validation of a proposal decides a declarative description of a well-formed one.
use webmcp_backend.Common.{◌↔◌, ◌<◌, arith, Passes, List, [], ◌∷◌, String}
use webmcp_backend.Common.Int.{pos, ◌<ℤ◌}
use webmcp_backend.Common.Text.{NotBlank}
use webmcp_backend.Domain.Core.{IsIdent, validate_ids-Passes}
use webmcp_backend.Domain.Proposal.{Status, Version, Proposal, validate_version, validate_proposal}

-- One of the six statuses.
abbrev pub IsStatus : Status → Type 0
IsStatus (Status.other _) = ⊥
IsStatus _ = Unit

pub record IsVersion (v : Version) : Type 0 where
  pub ident : IsIdent v.id
  pub proposal : IsIdent v.proposal_id
  pub scenario : IsIdent v.scenario_id
  pub numbered : pos 0 <ℤ v.number
  pub based : 0 < v.base_business_version
  pub summary : NotBlank v.summary
  pub status : IsStatus v.status

abbrev version_ids : Version → List (String × String)
version_ids v =
    ("proposal_version_id", v.id)
    ∷ ("proposal_id", v.proposal_id)
    ∷ ("scenario_id", v.scenario_id)
    ∷ []

pub validate_version-Passes : (v : Version) → Passes (validate_version v) ↔ IsVersion v
unfolding validate_version
validate_version-Passes v = (
  λ h. ground (arith, validate_ids-Passes (version_ids v)),
  λ h.
      ground
        (arith, (validate_ids-Passes (version_ids v)).1 (h.ident, (h.proposal, (h.scenario, tt)))),
)

pub record IsProposal (p : Proposal) : Type 0 where
  pub ident : IsIdent p.id
  pub business : IsIdent p.business_id
  pub goal : IsIdent p.goal_id
  pub versioned : 0 < p.version
  pub current : IsVersion p.current

abbrev proposal_ids : Proposal → List (String × String)
proposal_ids p =
    ("proposal_id", p.id) ∷ ("business_id", p.business_id) ∷ ("goal_id", p.goal_id) ∷ []

-- A proposal passes validation exactly if it and its current version are well formed.
pub validate_proposal-Passes : (p : Proposal) → Passes (validate_proposal p) ↔ IsProposal p
unfolding validate_proposal
validate_proposal-Passes p = (
  λ h. ground (arith, validate_ids-Passes (proposal_ids p), validate_version-Passes p.current),
  λ h. ground (
    arith,
    (validate_ids-Passes (proposal_ids p)).1 (h.ident, (h.business, (h.goal, tt))),
    (validate_version-Passes p.current).1 h.current,
  ),
)
