-- ===== src/JournalDaemon.antt =====
-- src/journal/journal_main.c: the journal's process. The mutex is held while the state is read and
-- changed, so that each of these functions is one step.
pub mod State
pub mod Submit
pub mod Replay
pub mod Ring
pub mod Subscription
mod Tests
