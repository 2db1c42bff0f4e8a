-- ===== src/Auth.antt =====
-- internal/auth: who a request acts for, and what that allows.
pub mod Principal
pub mod Guest
pub mod Chain
pub mod Jwt
