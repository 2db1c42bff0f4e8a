-- ===== src/Http/Handlers.antt =====
-- internal/httpapi/api_handlers.go: the protected handlers, each by what it gives the checks that they
-- share. A service is a function from its input to an operation on a world.
pub mod Requests
pub mod Scenarios
pub mod Proposals
pub mod Writes
pub mod Commits
pub mod Decisions
pub mod Reads
