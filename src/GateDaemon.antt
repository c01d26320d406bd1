-- ===== src/GateDaemon.antt =====
-- src/gate/gate_main.c: the gate's process. What it answers to a frame is a function of its state, the
-- time and what the system makes of the writes to the disk: the mutex is held while the state is
-- read and changed, so the handlers of several connections run one after the other.
pub mod Context
pub mod Promotion
pub mod Handlers
pub mod Sublist
pub mod Run
pub mod Durable
mod Tests
