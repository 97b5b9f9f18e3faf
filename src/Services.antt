-- ===== src/Services.antt =====
-- What a request is cached as: crates/cachic/src/services.
pub mod Key
pub mod Domains
pub mod Matcher
pub mod Examples
