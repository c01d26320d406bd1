-- ===== src/Journal/Admit.antt =====
-- include/obicall/journal.h and src/core/journal.c: the admission of one observation.
use obicall.Common.{
  ℕ, ◌-◌, ◌≤◌, ◌≡◌, Bool, true, false, not, ◌&&◌, ◌||◌, List, leb, ltb, ◌==◌, if◌then◌else◌, ℤ,
  ◌-ℤ◌, ltb_ℤ, arith,
}
use obicall.Observation.{Observation}
use obicall.Observation.Doubles.{Arithmetic}
use obicall.Observation.Validate.{observation_validate}
use obicall.Status.{Result, ok, err}

pub data AdmissionReason : Type 0 where
  admit_ok reject_validation reject_duplicate reject_late reject_overflow
        reject_sequence_regression :
      AdmissionReason

-- `overflow_policy` is read by the journal daemon only.
pub record JournalConfig : Type 0 where
  pub reorder_window_n : ℕ
  pub max_lateness_ns : ℤ
  pub max_pending_per_pipeline : ℕ
  pub overflow_policy : ℕ

pub record SensorTrack : Type 0 where
  pub sensor_id : List ℕ
  pub source_boot_id : ℕ
  pub has_data : ℕ
  pub highest_sequence_seen : ℕ
  pub watermark_sample_time_ns : ℤ

abbrev pub is_new_session : SensorTrack → Observation → Bool
is_new_session track obs = track.has_data == 0 || not (track.source_boot_id == obs.source_boot_id)

-- The fields that an admitted observation sets.
unfoldable pub track_after : SensorTrack → Observation → SensorTrack
track_after track obs = record {
  sensor_id = obs.sensor_id;
  source_boot_id = obs.source_boot_id;
  has_data = 1;
  highest_sequence_seen = obs.sequence;
  watermark_sample_time_ns =
      if is_new_session track obs || ltb_ℤ track.watermark_sample_time_ns obs.sample_time_ns
      then obs.sample_time_ns
      else track.watermark_sample_time_ns;
}

abbrev pub admit_if_room :
    JournalConfig → SensorTrack → Observation → ℕ → SensorTrack × AdmissionReason
admit_if_room cfg track obs pending =
    if leb cfg.max_pending_per_pipeline pending
    then (track, reject_overflow)
    else (track_after track obs, admit_ok)

abbrev pub is_ok : Result (Unit {0}) → Bool
is_ok (ok u) = true
is_ok (err e) = false

-- The track after, and the reason. The differences on int64_t are taken not to overflow.
unfoldable pub admit :
    Arithmetic → JournalConfig → SensorTrack → Observation → ℕ → SensorTrack × AdmissionReason
admit arithmetic cfg track obs pending =
    if not (is_ok (observation_validate arithmetic obs))
    then (track, reject_validation)
    else if is_new_session track obs
    then admit_if_room cfg track obs pending
    else if leb obs.sequence track.highest_sequence_seen
    then (if ltb cfg.reorder_window_n (track.highest_sequence_seen - obs.sequence)
        then (track, reject_late)
        else (track, reject_duplicate))
    else if ltb_ℤ obs.sample_time_ns (track.watermark_sample_time_ns -ℤ cfg.max_lateness_ns)
    then (track, reject_late)
    else admit_if_room cfg track obs pending

abbrev pub is_admitted : AdmissionReason → Bool
is_admitted admit_ok = true
is_admitted reject_validation = false
is_admitted reject_duplicate = false
is_admitted reject_late = false
is_admitted reject_overflow = false
is_admitted reject_sequence_regression = false

-- The observation continues the track's session in order and in time, or begins a session.
abbrev pub is_in_order : JournalConfig → SensorTrack → Observation → Bool
is_in_order cfg track obs =
    is_new_session track obs
    || (ltb track.highest_sequence_seen obs.sequence
        && not (ltb_ℤ obs.sample_time_ns (track.watermark_sample_time_ns -ℤ cfg.max_lateness_ns)))

-- An observation is admitted exactly if it is valid, there is room for it, and it begins a session or
-- has a sequence number above all that were admitted in its session and is not too late behind
-- the watermark. The track is changed only then.
pub admit_lem :
    (arithmetic : Arithmetic) (cfg : JournalConfig) (track : SensorTrack) (obs : Observation)
    (pending : ℕ)
    → (is_admitted (admit arithmetic cfg track obs pending).1 ≡ (
        is_ok (observation_validate arithmetic obs)
        && is_in_order cfg track obs
        && ltb pending cfg.max_pending_per_pipeline))
      × ((admit arithmetic cfg track obs pending).0 ≡ (
          if is_admitted (admit arithmetic cfg track obs pending).1
          then track_after track obs
          else track))
unfolding admit
admit_lem arithmetic cfg track obs pending = (ground arith, ground arith)

-- What is not above the highest sequence number of its session is refused.
pub admit_behind :
    (arithmetic : Arithmetic) (cfg : JournalConfig) (track : SensorTrack) (obs : Observation)
    (pending : ℕ)
    → is_ok (observation_validate arithmetic obs) ≡ true
    → is_new_session track obs ≡ false
    → obs.sequence ≤ track.highest_sequence_seen
    → admit arithmetic cfg track obs pending ≡ (
      track,
      if leb (track.highest_sequence_seen - obs.sequence) cfg.reorder_window_n
          then reject_duplicate
          else reject_late,
    )
unfolding admit
admit_behind arithmetic cfg track obs pending valid same behind = ground arith
