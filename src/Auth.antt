-- ===== src/Auth.antt =====
-- services/api/internal/auth/auth.go: account lockout and the rotation of refresh tokens.
pub mod Lockout
pub mod Tokens
pub mod Jwt
pub mod Oauth
