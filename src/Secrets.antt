-- ===== src/Secrets.antt =====
-- internal/secrets: the store of credentials.
pub mod FileStore
