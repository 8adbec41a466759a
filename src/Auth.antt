-- ===== src/Auth.antt =====
-- The management plane's authentication and roles (internal/auth).
pub mod Rbac
pub mod Password
pub mod Tokens
