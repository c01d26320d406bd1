-- ===== src/Checkpoint.antt =====
-- include/obicall/checkpoint.h: the state of an estimator and how far its sensors were read.
use obicall.Common.{ℕ, ◌≡◌, List, length, replicate, All, ℤ, IsSigned}
use obicall.Cursor.Codec.{IsWord}
use obicall.FusionResult.{pipeline_id_len}
use obicall.Observation.{sensor_id_len}

abbrev pub max_tracked_sources : ℕ
max_tracked_sources = 16

abbrev pub max_state_dim : ℕ
max_state_dim = 6

abbrev pub max_state_cov : ℕ
max_state_cov = 36

-- `sizeof(obicall_checkpoint_t)` with 8-byte alignment of 64-bit fields.
abbrev pub sizeof_checkpoint : ℕ
sizeof_checkpoint = 1184

pub record SourcePosition : Type 0 where
  pub sensor_id : List ℕ
  pub source_boot_id : ℕ
  pub last_sequence : ℕ

abbrev pub blank_source : SourcePosition
blank_source = record {
  sensor_id = replicate sensor_id_len 0;
  source_boot_id = 0;
  last_sequence = 0;
}

-- A double is its bit pattern, an array of `char` its bytes.
pub record Checkpoint : Type 0 where
  pub struct_size : ℕ
  pub schema_version : ℕ
  pub pipeline_id : List ℕ
  pub window_seq : ℕ
  pub estimator_mode : ℕ
  pub state_dim : ℕ
  pub state_mean : List ℕ
  pub state_covariance : List ℕ
  pub calibration_version : ℕ
  pub policy_version : ℕ
  pub dgt_action_id : ℕ
  pub source_count : ℕ
  pub sources : List SourcePosition
  pub created_at_ns : ℤ

pub record IsSourcePosition (p : SourcePosition) : Type 0 where
  pub sensor_id_length : length p.sensor_id ≡ sensor_id_len
  pub source_boot_id_word : IsWord 64 p.source_boot_id
  pub last_sequence_word : IsWord 64 p.last_sequence

-- Every field holds a value of its C type.
pub record IsCheckpoint (k : Checkpoint) : Type 0 where
  pub struct_size_word : IsWord 32 k.struct_size
  pub schema_version_word : IsWord 32 k.schema_version
  pub pipeline_id_length : length k.pipeline_id ≡ pipeline_id_len
  pub window_seq_word : IsWord 64 k.window_seq
  pub estimator_mode_word : IsWord 32 k.estimator_mode
  pub state_dim_word : IsWord 32 k.state_dim
  pub state_mean_length : length k.state_mean ≡ max_state_dim
  pub state_mean_words : All (IsWord 64) k.state_mean
  pub state_covariance_length : length k.state_covariance ≡ max_state_cov
  pub state_covariance_words : All (IsWord 64) k.state_covariance
  pub calibration_version_word : IsWord 32 k.calibration_version
  pub policy_version_word : IsWord 32 k.policy_version
  pub dgt_action_id_word : IsWord 32 k.dgt_action_id
  pub source_count_word : IsWord 32 k.source_count
  pub sources_length : length k.sources ≡ max_tracked_sources
  pub sources_words : All IsSourcePosition k.sources
  pub created_at_word : IsSigned 63 k.created_at_ns
