-- ===== src/Common/Device.antt =====
-- What the C library and the system make of the calls that store a record.
use mathlib.Core.Bool.{Bool}

pub record Device : Type 0 where
  pub header_written : Bool
  pub payload_written : Bool
  pub flushed : Bool
  pub synced : Bool
