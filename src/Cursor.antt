-- ===== src/Cursor.antt =====
-- src/core/wire_cursor.h: the bounded cursors that every codec writes and reads through, and what
-- a codec made of them guarantees.
pub mod Octets
pub mod Write
pub mod Read
pub mod Writes
pub mod Reads
pub mod Codec
pub mod RoundTrip
pub mod Guards
