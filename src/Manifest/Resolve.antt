-- ===== src/Manifest/Resolve.antt =====
-- src/core/manifest.c: `obicall_manifest_resolve`.
pub mod Search
pub mod Sort
pub mod Names
pub mod Needed
pub mod Searched
pub mod Release
pub mod Queue
pub mod Order
pub mod Plan
pub mod Required
pub mod Closed
pub mod Cycle
pub mod Start
