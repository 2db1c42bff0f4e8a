-- ===== src/Store.antt =====
-- internal/platform/postgres: the persistence adapters over an explicit database.
pub mod Tables
pub mod Tx
pub mod Sql
pub mod Commits
pub mod Approvals
pub mod Members
pub mod Proposals
pub mod Steps
