-- ===== src/Store/Commits.antt =====
-- internal/platform/postgres/commit_service.go: the commit of an approved proposal.
pub mod Rows
pub mod Writes
pub mod Committed
pub mod Transaction
pub mod Replay
