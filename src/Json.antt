-- ===== src/Json.antt =====
-- src/core/json_min.c: the bounded reader of JSON texts.
pub mod Scan
pub mod Lookup
pub mod Bounds
pub mod Inside
pub mod Arrays
pub mod Fuel
pub mod Rounds
pub mod Decode
mod Tests
