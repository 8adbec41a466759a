-- ===== src/Proxy.antt =====
-- internal/proxy: the SSH front door.
pub mod Types
pub mod Authn
pub mod MemAuth
pub mod Target
pub mod Connect
pub mod Effects
pub mod Server
pub mod BrowserLogin
pub mod Gate
pub mod Registry
pub mod DbAuthz
pub mod MemAuthz
