-- ===== src/Journal.antt =====
-- src/core/journal.c: the admission of observations.
pub mod Admit
pub mod Session
pub mod Record
pub mod Header
pub mod Stored
mod Tests
