-- ===== src/Config.antt =====
-- The configuration surface: crates/cachic/src/config.
pub mod Units
