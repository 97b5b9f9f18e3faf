-- ===== src/Orchestrator.antt =====
-- Where a client request becomes slice fetches: crates/cachic/src/orchestrator.
pub mod Validators
pub mod Readahead
pub mod Filler
pub mod Fill
pub mod Core
pub mod Examples
