-- ===== src/Plan.antt =====
-- ssat/core/plan: the deterministic enumeration of work items and chunks.
pub mod Text
pub mod Config
pub mod Expanders
pub mod RegionExpander
pub mod Hashing
pub mod Items
pub mod Chunks
pub mod Builder
