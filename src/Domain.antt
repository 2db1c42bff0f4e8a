-- ===== src/Domain.antt =====
-- internal/domain: the canonical types, their validation and their state machines.
pub mod Core
pub mod Business
pub mod Planning
pub mod Proposal
pub mod Approval
pub mod Audit
pub mod Scenario
pub mod Commit
