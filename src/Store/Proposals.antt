-- ===== src/Store/Proposals.antt =====
-- internal/platform/postgres/proposal_repository.go: proposals and their versions.
pub mod Rows
pub mod Operations
pub mod Written
pub mod RoundTrip
pub mod Revised
pub mod Submitted
pub mod Reread
pub mod Replaced
pub mod Answers
pub mod Port
