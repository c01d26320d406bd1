-- ===== src/Gate/State.antt =====
-- include/obicall/gate.h: the gate's durable state and its outcomes.
use obicall.Common.{ℕ, ◌≤◌, ◌≡◌, List, length, replicate}
use obicall.FusionResult.{pipeline_id_len, digest_len}

abbrev pub max_pipelines : ℕ
max_pipelines = 8

-- `OBICALL_BROKER_NONE`
abbrev pub broker_none : ℕ
broker_none = 0

pub record PipelineState : Type 0 where
  pub pipeline_id : List ℕ
  pub has_committed : ℕ
  pub last_committed_window_seq : ℕ
  pub last_committed_digest : List ℕ

abbrev pub blank_pipeline : PipelineState
blank_pipeline = record {
  pipeline_id = replicate pipeline_id_len 0;
  has_committed = 0;
  last_committed_window_seq = 0;
  last_committed_digest = replicate digest_len 0;
}

-- `pipelines` has `max_pipelines` slots, of which the first `pipeline_count` are in use.
pub record GateState : Type 0 where
  pub struct_size : ℕ
  pub schema_version : ℕ
  pub epoch : ℕ
  pub owner_broker_id : ℕ
  pub pipeline_count : ℕ
  pub pipelines : List PipelineState

pub record IsGateState (s : GateState) : Type 0 where
  pub count_fits : s.pipeline_count ≤ max_pipelines
  pub slots : length s.pipelines ≡ max_pipelines

pub data PublishOutcome : Type 0 where
  commit shadow_recorded reject_not_owner reject_stale_epoch : PublishOutcome
  reject_duplicate_window reject_expired reject_incompatible reject_no_capacity : PublishOutcome
