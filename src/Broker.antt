-- ===== src/Broker.antt =====
-- cmd/broker: how the broker's process ties the front door to the database.
pub mod Adapter
pub mod Authz
pub mod BrowserLogin
pub mod Reaper
pub mod Admin
