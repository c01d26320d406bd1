-- ===== src/Wire/Control.antt =====
-- include/obicall/wire.h and src/core/wire.c: a module for each control message.
pub mod AuthHello
pub mod Heartbeat
pub mod EpochGrant
pub mod EpochRevoke
pub mod ReadinessReport
pub mod ReplayRequest
pub mod AdmissionDecision
pub mod ResultAck
pub mod StatusReply
