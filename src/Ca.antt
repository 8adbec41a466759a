-- ===== src/Ca.antt =====
-- internal/ca: the certificate issuer and its serial numbers.
pub mod Issuer
pub mod Serial
