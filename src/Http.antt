-- ===== src/Http.antt =====
-- internal/httpapi: the decisions of the HTTP middleware.
pub mod Cors
pub mod RequestIds
pub mod Authenticated
pub mod Server
pub mod Access
pub mod Replies
pub mod Gates
pub mod Handlers
