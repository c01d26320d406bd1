-- ===== src/Wire.antt =====
-- src/core/wire.c: the frame header and the payload codecs.
pub mod Header
pub mod Observation
pub mod Control
pub mod ControlMessage
pub mod FusionResult
pub mod Checkpoint
pub mod Event
