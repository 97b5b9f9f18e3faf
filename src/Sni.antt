-- ===== src/Sni.antt =====
-- TLS pass-through by server name: crates/cachic/src/sni.
pub mod ClientHello
pub mod Examples
