-- ===== src/Api.antt =====
-- The management API (internal/api).
pub mod Limiter
pub mod Login
pub mod Principal
pub mod Routes
pub mod Db
pub mod UserHandlers
pub mod ServerHandlers
pub mod GrantHandlers
pub mod Management
