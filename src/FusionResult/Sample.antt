-- ===== src/FusionResult/Sample.antt =====
-- include/obicall/result.h: one fusion result, for runs.
use obicall.Common.{refl, arith, length, replicate, All-replicate, pos, ◌≡◌}
use obicall.Cursor.Codec.{IsWord}
use obicall.FusionResult.{FusionResult, IsFusionResult, sizeof_fusion_result, blank_name}
use obicall.Observation.{sensor_id_len}

abbrev pub track : FusionResult
track = record {
  struct_size = sizeof_fusion_result;
  schema_version = 1;
  pipeline_id = replicate 32 0x70;
  window_seq = 12;
  broker_id = 1;
  epoch = 3;
  status = 0;
  payload_shape = 1;
  payload_count = 1;
  payload = replicate 6 0x3FF0000000000000;
  covariance_count = 1;
  covariance = replicate 36 0x3FE0000000000000;
  input_digest = replicate 32 1;
  config_digest = replicate 32 2;
  timestamp_ns = pos 1000;
  valid_until_ns = pos 2000;
  source_count = 1;
  sources = replicate 8 blank_name;
  dgt_action_id = 5;
}

pub track-IsFusionResult : IsFusionResult track
track-IsFusionResult = record {
  struct_size_word = omega arith;
  schema_version_word = omega arith;
  pipeline_id_length = refl;
  window_seq_word = omega arith;
  broker_id_word = omega arith;
  epoch_word = omega arith;
  status_word = omega arith;
  payload_shape_word = omega arith;
  payload_count_word = omega arith;
  payload_length = refl;
  payload_words = All-replicate (IsWord 64) 6 _ (omega arith);
  covariance_count_word = omega arith;
  covariance_length = refl;
  covariance_words = All-replicate (IsWord 64) 36 _ (omega arith);
  input_digest_length = refl;
  config_digest_length = refl;
  timestamp_ns_word = (omega arith, omega arith);
  valid_until_ns_word = (omega arith, omega arith);
  source_count_word = omega arith;
  sources_length = refl;
  sources_names = All-replicate (λ s. length s ≡ sensor_id_len) 8 blank_name refl;
  dgt_action_id_word = omega arith;
}
