-- ===== src/Manifest.antt =====
-- include/obicall/manifest.h and src/core/manifest.c: the manifests of the providers.
pub mod State
pub mod Parse
pub mod Accepted
pub mod Resolve
pub mod Rank
pub mod Load
mod Tests
