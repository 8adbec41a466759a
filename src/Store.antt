-- ===== src/Store.antt =====
-- internal/store: the queries and updates on the broker's tables.
pub mod Audit
pub mod SshLogin
pub mod Users
pub mod Keys
pub mod Servers
pub mod Profiles
pub mod Grants
pub mod Sessions
pub mod Admins
