-- ===== src/Observation/Validate/Sample.antt =====
-- A valid observation, under a coarse arithmetic, for runs.
use obicall.Common.{◌∷◌, ◌≡◌, refl, replicate, pos, All-replicate, arith}
use obicall.Cursor.Octets.{IsByte}
use obicall.Cursor.Codec.{IsWord}
use obicall.Observation.{Observation, IsObservation, sizeof_observation}
use obicall.Observation.Doubles.{Arithmetic, f64_lt}
use obicall.Observation.Validate.{
  observation_validate, notes, note_parts, payload_notes, covariance_notes, has_terminator,
  all_finite, is_symmetric, rows_are_symmetric, row_is_symmetric, is_apart, covariance_is_psd,
  cholesky_rows, cholesky_row, cholesky_sum, payload_shape_dimension,
}
use obicall.Status.{ok}

abbrev pub coarse : Arithmetic
coarse = record {
  add = λ a b. b;
  sub = λ a b. 0;
  mul = λ a b. 0x3E112E0BE826D695;
  div = λ a b. a;
  sqrt = λ a. a;
}

abbrev pub range : Observation
range = record {
  struct_size = sizeof_observation;
  schema_version = 1;
  sensor_id = 0x61 ∷ replicate 31 0;
  source_boot_id = 7;
  sequence = 5;
  sample_time_ns = pos 1000;
  arrival_time_ns = pos 1010;
  clock_domain = 1;
  time_uncertainty_s = 0;
  coordinate_frame = 1;
  units = 1;
  calibration_version = 1;
  payload_shape = 4;
  payload_count = 1;
  payload = replicate 6 0x3FF0000000000000;
  covariance_count = 1;
  covariance = replicate 36 0x3FE0000000000000;
}

pub range-valid : observation_validate coarse range ≡ ok tt
unfolding observation_validate notes note_parts payload_notes covariance_notes has_terminator
    all_finite is_symmetric rows_are_symmetric row_is_symmetric is_apart covariance_is_psd
    cholesky_rows cholesky_row cholesky_sum payload_shape_dimension f64_lt
range-valid = refl

pub range-IsObservation : IsObservation range
range-IsObservation = record {
  struct_size_word = omega arith;
  schema_version_word = omega arith;
  sensor_id_length = refl;
  sensor_id_bytes = (omega arith, All-replicate IsByte 31 _ (omega arith));
  source_boot_id_word = omega arith;
  sequence_word = omega arith;
  sample_time_word = (omega arith, omega arith);
  arrival_time_word = (omega arith, omega arith);
  clock_domain_word = omega arith;
  time_uncertainty_word = omega arith;
  coordinate_frame_word = omega arith;
  units_word = omega arith;
  calibration_version_word = omega arith;
  payload_shape_word = omega arith;
  payload_count_word = omega arith;
  payload_length = refl;
  payload_words = All-replicate (IsWord 64) 6 _ (omega arith);
  covariance_count_word = omega arith;
  covariance_length = refl;
  covariance_words = All-replicate (IsWord 64) 36 _ (omega arith);
}
