-- ===== src/Journal/Tests.antt =====
-- Runs of the journal.
use obicall.Common.{
  ℕ, ◌&&◌, ◌∙◌, ◌≤◌, ◌-◌, leb, if◌then◌else◌, ◌≡◌, refl, ap, true, List, [], ◌∷◌, ◌++◌, arith,
  replicate, pos, drop,
}
use obicall.Common.Device.{Device}
use obicall.Common.Marks.{Increasing}
use obicall.Cursor.Octets.{octets}
use obicall.Cursor.Writes.{fields, each_field}
use obicall.Journal.Admit.{
  JournalConfig, SensorTrack, track_after, admit, admit_ok, reject_duplicate, is_admitted, is_ok,
  admit_lem, reject_late,
}
use obicall.Journal.Session.{
  admitted, session, admit_again, session_mark, sequences, admitted-Increasing,
}
use obicall.Journal.Record.{RecordHeader, header_for, append_record, read_record}
use obicall.Journal.Header.{append_record_lem, record_header_layout}
use obicall.Journal.Stored.{read-append_record, read_record_cut}
use obicall.Observation.{Observation}
use obicall.Observation.Validate.{observation_validate}
use obicall.Observation.Validate.Sample.{coarse, range, range-valid, range-IsObservation}
use obicall.Status.{ok, err, wire_malformed}
use obicall.Wire.Observation.{received, encode_observation, observation_layout}
use obicall.Wire.Observation.RoundTrip.{encode_observation_lem}

abbrev cfg : JournalConfig
cfg = record {
  reorder_window_n = 3;
  max_lateness_ns = pos 100;
  max_pending_per_pipeline = 4;
  overflow_policy = 0;
}

abbrev quiet : SensorTrack
quiet = record {
  sensor_id = replicate 32 0;
  source_boot_id = 0;
  has_data = 0;
  highest_sequence_seen = 0;
  watermark_sample_time_ns = pos 0;
}

abbrev ahead : SensorTrack
ahead = record {
  sensor_id = replicate 32 0;
  source_boot_id = 7;
  has_data = 1;
  highest_sequence_seen = 6;
  watermark_sample_time_ns = pos 1100;
}

range-ok : is_ok (observation_validate coarse range) ≡ true
range-ok = ap is_ok range-valid

range-admitted : is_admitted (admit coarse cfg quiet range 0).1 ≡ true
range-admitted = (admit_lem coarse cfg quiet range 0).0 ∙ ap (λ b. b && true && true) range-ok

-- The next observation of the sensor.
abbrev next_range : Observation
next_range = record range { sequence = 6; sample_time_ns = pos 1050 }

abbrev after : SensorTrack
after = session coarse cfg (admit coarse cfg quiet range 0).0 ((next_range, 1) ∷ [])

admit_again_example :
    (5 ≤ after.highest_sequence_seen)
    × (admit coarse cfg after range 2 ≡ (
      after,
      if leb (after.highest_sequence_seen - 5) 3 then reject_duplicate else reject_late,
    ))
admit_again_example =
    admit_again coarse cfg quiet range 0 ((next_range, 1) ∷ []) 2 range-admitted (refl, tt)

admitted-Increasing_example :
    Increasing
      (session_mark quiet 7)
      (sequences coarse cfg (admitted coarse cfg quiet ((range, 0) ∷ (range, 1) ∷ [])))
admitted-Increasing_example =
    admitted-Increasing coarse cfg ((range, 0) ∷ (range, 1) ∷ []) quiet 7 (refl, (refl, tt))

admit_lem_example :
    (is_admitted (admit coarse cfg quiet range 0).1
      ≡ (is_ok (observation_validate coarse range) && true && true))
    × ((admit coarse cfg quiet range 0).0 ≡ (
        if is_admitted (admit coarse cfg quiet range 0).1 then track_after quiet range else quiet))
admit_lem_example = admit_lem coarse cfg quiet range 0

abbrev working : Device
working = record { header_written = true; payload_written = true; flushed = true; synced = true }

abbrev obs_buf : List ℕ
obs_buf = observation_layout range

abbrev bytes : List ℕ
bytes = record_header_layout (header_for 9 (pos 2000) admit_ok obs_buf) ++ obs_buf

range-encoded : encode_observation range 4096 ≡ ok obs_buf
unfolding observation_layout fields octets each_field
range-encoded = encode_observation_lem range 4096 (omega arith)

range-appended : append_record working 9 (pos 2000) admit_ok range ≡ ok bytes
unfolding observation_layout fields octets each_field
range-appended = append_record_lem working 9 (pos 2000) admit_ok range obs_buf range-encoded

read-append_record_example :
    (hdr : RecordHeader) × (read_record (bytes ++ (1 ∷ [])) ≡ (ok (hdr, received range), 1 ∷ []))
    × (hdr.window_seq ≡ 9)
    × (hdr.admitted_at_ns ≡ pos 2000)
    × (hdr.admission_reason ≡ 0)
read-append_record_example =
    read-append_record working 9 (pos 2000) admit_ok range range-IsObservation (omega arith)
      (omega arith, omega arith) bytes range-appended (1 ∷ [])

read_record_cut_example : read_record (0x42 ∷ 0x52 ∷ []) ≡ (err wire_malformed, 0x42 ∷ 0x52 ∷ [])
unfolding record_header_layout fields octets
read_record_cut_example =
    read_record_cut working 9 (pos 2000) admit_ok range range-IsObservation (omega arith)
      (omega arith, omega arith) bytes range-appended 0x42 (0x52 ∷ []) (drop 3 bytes) 0x4F refl
