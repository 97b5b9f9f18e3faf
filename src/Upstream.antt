-- ===== src/Upstream.antt =====
-- The client that talks to the origins: crates/cachic/src/upstream.
pub mod Client
pub mod Guard
pub mod Examples
