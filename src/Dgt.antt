-- ===== src/Dgt.antt =====
-- include/obicall/dgt.h and src/core/dgt.c: the selection of an action by its worst case.
pub mod Policy
pub mod Select
pub mod Eligible
mod Tests
