-- ===== src/Observation.antt =====
-- include/obicall/observation.h: one sensor reading.
pub mod Doubles
pub mod Validate
pub mod Accepted
mod Tests
use obicall.Common.{ℕ, ◌≡◌, List, length, All, ℤ, IsSigned}
use obicall.Cursor.Octets.{IsByte}
use obicall.Cursor.Codec.{IsWord}

abbrev pub max_payload_doubles : ℕ
max_payload_doubles = 6

abbrev pub max_cov_doubles : ℕ
max_cov_doubles = 36

abbrev pub sensor_id_len : ℕ
sensor_id_len = 32

-- `sizeof(obicall_observation_t)` with 8-byte alignment of 64-bit fields.
abbrev pub sizeof_observation : ℕ
sizeof_observation = 456

-- A double is its bit pattern, an array of `char` its bytes.
pub record Observation : Type 0 where
  pub struct_size : ℕ
  pub schema_version : ℕ
  pub sensor_id : List ℕ
  pub source_boot_id : ℕ
  pub sequence : ℕ
  pub sample_time_ns : ℤ
  pub arrival_time_ns : ℤ
  pub clock_domain : ℕ
  pub time_uncertainty_s : ℕ
  pub coordinate_frame : ℕ
  pub units : ℕ
  pub calibration_version : ℕ
  pub payload_shape : ℕ
  pub payload_count : ℕ
  pub payload : List ℕ
  pub covariance_count : ℕ
  pub covariance : List ℕ

-- Every field holds a value of its C type.
pub record IsObservation (o : Observation) : Type 0 where
  pub struct_size_word : IsWord 32 o.struct_size
  pub schema_version_word : IsWord 32 o.schema_version
  pub sensor_id_length : length o.sensor_id ≡ sensor_id_len
  pub sensor_id_bytes : All IsByte o.sensor_id
  pub source_boot_id_word : IsWord 64 o.source_boot_id
  pub sequence_word : IsWord 64 o.sequence
  pub sample_time_word : IsSigned 63 o.sample_time_ns
  pub arrival_time_word : IsSigned 63 o.arrival_time_ns
  pub clock_domain_word : IsWord 32 o.clock_domain
  pub time_uncertainty_word : IsWord 64 o.time_uncertainty_s
  pub coordinate_frame_word : IsWord 32 o.coordinate_frame
  pub units_word : IsWord 32 o.units
  pub calibration_version_word : IsWord 32 o.calibration_version
  pub payload_shape_word : IsWord 32 o.payload_shape
  pub payload_count_word : IsWord 32 o.payload_count
  pub payload_length : length o.payload ≡ max_payload_doubles
  pub payload_words : All (IsWord 64) o.payload
  pub covariance_count_word : IsWord 32 o.covariance_count
  pub covariance_length : length o.covariance ≡ max_cov_doubles
  pub covariance_words : All (IsWord 64) o.covariance
