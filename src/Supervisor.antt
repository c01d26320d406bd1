-- ===== src/Supervisor.antt =====
-- src/supervisor/supervisor.c: how child processes are watched and started again.
pub mod Monitor
pub mod Stopped
pub mod Bursts
mod Tests
