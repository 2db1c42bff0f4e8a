-- ===== src/Auth/Jwt.antt =====
-- internal/auth/jwt.go: the bearer tokens of an OIDC issuer.
pub mod Tokens
pub mod Keys
pub mod Bearer
