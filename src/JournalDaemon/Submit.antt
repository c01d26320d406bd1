-- ===== src/JournalDaemon/Submit.antt =====
-- src/journal/journal_main.c: the admission of an observation that a worker submits.
use obicall.Common.{
  ℕ, zero, suc, ◌+◌, ◌-◌, ◌%◌, ◌^◌, Bool, ◌&&◌, List, [], ◌∷◌, ◌++◌, Option, none, some, ltb, leb,
  ◌==◌, if◌then◌else◌, length, set, pos,
}
use obicall.Common.Text.{str_eq, strncpy}
use obicall.Journal.Admit.{AdmissionReason, reject_overflow, SensorTrack, admit}
use obicall.Journal.Record.{append_record, reason_code}
use obicall.JournalDaemon.State.{
  max_sensor_tracks, ring_capacity, role_broker, RingEntry, ConnSlot, JournalState, Writing,
}
use obicall.Observation.{Observation, sensor_id_len}
use obicall.Observation.Doubles.{Arithmetic}
use obicall.Status.{Result, ok, err}
use obicall.Wire.Observation.{decode_observation}

abbrev pub blank_track : List ℕ → SensorTrack
blank_track sensor_id = record {
  sensor_id = strncpy sensor_id_len sensor_id;
  source_boot_id = 0;
  has_data = 0;
  highest_sequence_seen = 0;
  watermark_sample_time_ns = pos 0;
}

-- The index of the sensor's track among those from `i` on, none for all others.
unfoldable pub find_track : List SensorTrack → List ℕ → ℕ → Option ℕ
find_track [] sensor_id i = none
find_track (t ∷ tracks) sensor_id i =
    let rest = find_track tracks sensor_id (suc i) in
    if str_eq t.sensor_id sensor_id then some i else rest

-- The tracks after, and the index of the sensor's, unless there is no room for a new one.
unfoldable pub find_or_create_track : List SensorTrack → List ℕ → Option (List SensorTrack × ℕ)
find_or_create_track tracks sensor_id = elim (find_track tracks sensor_id 0) [
  | some i ↦ some (tracks, i)
  | none ↦
      if leb max_sensor_tracks (length tracks)
      then none
      else some (tracks ++ (blank_track sensor_id ∷ []), length tracks)
]

abbrev pub is_subscriber : ConnSlot → Bool
is_subscriber c = c.in_use && c.role == role_broker

-- `slowest`, if `any`.
unfoldable pub slowest_subscriber : List ConnSlot → Option ℕ → Option ℕ
slowest_subscriber [] slowest = slowest
slowest_subscriber (c ∷ conns) slowest =
    let lower : Option ℕ = elim slowest [
      | none ↦ some c.next_seq_to_send
      | some s ↦ if ltb c.next_seq_to_send s then some c.next_seq_to_send else some s
    ] in
    slowest_subscriber conns (if is_subscriber c then lower else slowest)

unfoldable pub compute_pending_depth : JournalState → ℕ
compute_pending_depth st = elim (slowest_subscriber st.conns none) [
  | none ↦ 0
  | some slowest ↦
      if ltb slowest st.next_window_seq then (st.next_window_seq - slowest) % 2 ^ 32 else 0
]

-- `tracks[i]`, inside the array.
abbrev pub track_at : List SensorTrack → ℕ → SensorTrack
track_at [] i = blank_track []
track_at (t ∷ tracks) zero = t
track_at (t ∷ tracks) (suc i) = track_at tracks i

abbrev pub store : (ℕ → RingEntry) → ℕ → RingEntry → ℕ → RingEntry
store ring slot entry i = if i == slot then entry else ring i

-- What is in the file after a record is appended to it.
abbrev pub appended : List ℕ → List ℕ → Result (List ℕ) → List ℕ
appended file left (ok bytes) = file ++ bytes
appended file left (err e) = file ++ left

abbrev pub append_segment :
    Writing → ℕ → AdmissionReason → Observation → Option (List ℕ) → Option (List ℕ)
append_segment w window_seq reason obs none = none
append_segment w window_seq reason obs (some file) =
    some (appended file w.left (append_record w.device window_seq w.now_ns reason obs))

-- The state after an admission to the track with index `i`: also an observation that is refused gets a window.
unfoldable pub admit_to :
    Arithmetic
    → Writing
    → JournalState
    → Observation
    → List SensorTrack
    → ℕ
    → JournalState × AdmissionReason
admit_to arithmetic w st obs tracks i =
    let decided = admit arithmetic st.cfg (track_at tracks i) obs (compute_pending_depth st) in
    let window_seq = st.next_window_seq in
    (
      record st {
        tracks = set tracks i decided.0;
        next_window_seq = (window_seq + 1) % 2 ^ 64;
        ring = store st.ring (window_seq % ring_capacity) (record {
          window_seq = window_seq;
          admission_reason = reason_code decided.1;
          obs = obs;
        });
        ring_head = window_seq;
        segment_file = append_segment w window_seq decided.1 obs st.segment_file;
      },
      decided.1,
    )

unfoldable pub admit_locked :
    Arithmetic → Writing → JournalState → Observation → JournalState × AdmissionReason
admit_locked arithmetic w st obs = elim (find_or_create_track st.tracks obs.sensor_id) [
  | none ↦ (st, reject_overflow)
  | some (tracks, i) ↦ admit_to arithmetic w st obs tracks i
]

abbrev pub msg_observation_submit : ℕ
msg_observation_submit = 3

-- One round of `handle_worker_connection`, on a frame that was received.
unfoldable pub handle_submission : Arithmetic → Writing → JournalState → ℕ → List ℕ → JournalState
handle_submission arithmetic w st msg_type payload =
    let handled : JournalState = elim (decode_observation payload) [
      | err e ↦ st
      | ok obs ↦ (admit_locked arithmetic w st obs).0
    ] in
    if msg_type == msg_observation_submit then handled else st
