-- ===== src/FusionResult.antt =====
-- include/obicall/result.h: a candidate or committed fusion output, `obicall_result_t`.
pub mod Sample
use obicall.Common.{ℕ, ◌^◌, ◌<◌, ◌≡◌, List, length, All, ℤ, IsSigned, replicate}
use obicall.Cursor.Codec.{IsWord}
use obicall.Observation.{max_payload_doubles, max_cov_doubles, sensor_id_len}

abbrev pub max_sources : ℕ
max_sources = 8

abbrev pub pipeline_id_len : ℕ
pipeline_id_len = 32

abbrev pub digest_len : ℕ
digest_len = 32

abbrev pub result_schema_version : ℕ
result_schema_version = 1

-- `sizeof(obicall_result_t)` with 8-byte alignment of 64-bit fields.
abbrev pub sizeof_fusion_result : ℕ
sizeof_fusion_result = 768

-- A slot of `sources` that holds no name.
abbrev pub blank_name : List ℕ
blank_name = replicate sensor_id_len 0

-- A double is its bit pattern, an array of `char` its bytes.
pub record FusionResult : Type 0 where
  pub struct_size : ℕ
  pub schema_version : ℕ
  pub pipeline_id : List ℕ
  pub window_seq : ℕ
  pub broker_id : ℕ
  pub epoch : ℕ
  pub status : ℕ
  pub payload_shape : ℕ
  pub payload_count : ℕ
  pub payload : List ℕ
  pub covariance_count : ℕ
  pub covariance : List ℕ
  pub input_digest : List ℕ
  pub config_digest : List ℕ
  pub timestamp_ns : ℤ
  pub valid_until_ns : ℤ
  pub source_count : ℕ
  pub sources : List (List ℕ)
  pub dgt_action_id : ℕ

-- Every field holds a value of its C type.
pub record IsFusionResult (r : FusionResult) : Type 0 where
  pub struct_size_word : IsWord 32 r.struct_size
  pub schema_version_word : IsWord 32 r.schema_version
  pub pipeline_id_length : length r.pipeline_id ≡ pipeline_id_len
  pub window_seq_word : IsWord 64 r.window_seq
  pub broker_id_word : IsWord 32 r.broker_id
  pub epoch_word : IsWord 64 r.epoch
  pub status_word : IsWord 32 r.status
  pub payload_shape_word : IsWord 32 r.payload_shape
  pub payload_count_word : IsWord 32 r.payload_count
  pub payload_length : length r.payload ≡ max_payload_doubles
  pub payload_words : All (IsWord 64) r.payload
  pub covariance_count_word : IsWord 32 r.covariance_count
  pub covariance_length : length r.covariance ≡ max_cov_doubles
  pub covariance_words : All (IsWord 64) r.covariance
  pub input_digest_length : length r.input_digest ≡ digest_len
  pub config_digest_length : length r.config_digest ≡ digest_len
  pub timestamp_ns_word : IsSigned 63 r.timestamp_ns
  pub valid_until_ns_word : IsSigned 63 r.valid_until_ns
  pub source_count_word : IsWord 32 r.source_count
  pub sources_length : length r.sources ≡ max_sources
  pub sources_names : All (λ s. length s ≡ sensor_id_len) r.sources
  pub dgt_action_id_word : IsWord 32 r.dgt_action_id
