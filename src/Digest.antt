-- ===== src/Digest.antt =====
-- src/core/digest.c: SHA-256 and CRC-32.
pub mod Crc32
pub mod Sha256
