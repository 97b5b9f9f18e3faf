-- ===== src/Store.antt =====
-- What the cache keeps on disk: crates/cachic/src/store.
pub mod Codec
pub mod Slice
pub mod Index
pub mod Space
pub mod Hybrid
pub mod Examples
