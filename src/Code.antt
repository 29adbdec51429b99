-- ===== src/Code.antt =====
-- src/oidc/code/: authorization codes.
pub mod Pkce
pub mod Timestamp
pub mod AuthorizationCode
pub mod Signature
