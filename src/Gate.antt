-- ===== src/Gate.antt =====
-- src/core/gate.c: the commit gate, which alone grants ownership and commits results.
pub mod State
pub mod Publish
pub mod Promote
pub mod Marks
pub mod HighWater
pub mod Decision
pub mod Run
pub mod Fingerprint
pub mod Codec
pub mod Persist
pub mod Record
pub mod Restore
pub mod Words
pub mod Working
mod Tests
