-- ===== src/JournalDaemon/State.antt =====
-- src/journal/journal_main.c: the state of the process.
use obicall.Common.{ℕ, Bool, List, Option, ℤ}
use obicall.Common.Device.{Device}
use obicall.Journal.Admit.{JournalConfig, SensorTrack}
use obicall.Observation.{Observation}

abbrev pub max_sensor_tracks : ℕ
max_sensor_tracks = 32

abbrev pub ring_capacity : ℕ
ring_capacity = 4096

abbrev pub role_worker : ℕ
role_worker = 1

abbrev pub role_broker : ℕ
role_broker = 2

pub record RingEntry : Type 0 where
  pub window_seq : ℕ
  pub admission_reason : ℕ
  pub obs : Observation

pub record ConnSlot : Type 0 where
  pub in_use : Bool
  pub role : ℕ
  pub next_seq_to_send : ℕ
  pub caught_up : Bool

-- `tracks` has the entries in use, `ring` the slots by their index, and `segment_file` the content of
-- the file, if there is one.
pub record JournalState : Type 0 where
  pub pipeline_id : List ℕ
  pub cfg : JournalConfig
  pub tracks : List SensorTrack
  pub ring : ℕ → RingEntry
  pub ring_head : ℕ
  pub next_window_seq : ℕ
  pub conns : List ConnSlot
  pub segment_file : Option (List ℕ)

-- The time of an admission, what the system makes of the writes of its record, and what a record that
-- cannot be written whole leaves in the file.
pub record Writing : Type 0 where
  pub now_ns : ℤ
  pub device : Device
  pub left : List ℕ
