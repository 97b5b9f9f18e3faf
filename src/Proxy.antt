-- ===== src/Proxy.antt =====
-- The client side of the proxy: crates/cachic/src/proxy.
pub mod Range
pub mod Limits
pub mod Headers
pub mod Server
