-- ===== src/Wire/Checkpoint.antt =====
-- src/core/wire.c: `obicall_wire_encode_checkpoint` and `obicall_wire_decode_checkpoint`.
pub mod RoundTrip
mod Tests
use obicall.Common.{
  ℕ, ◌*◌, Bool, ◌||◌, List, [], ◌∷◌, ltb, if◌then◌else◌, take, padded, to_unsigned,
}
use obicall.Cursor.Octets.{octets}
use obicall.Cursor.Write.{
  Writer, wc_u32, wc_u64, wc_i64, wc_f64, wc_fixed, wc_each, block, encode_with,
}
use obicall.Cursor.Read.{
  Reader, ◌>>=◌, ◌>>◌, pure, rc_u32, rc_u64, rc_i64, rc_f64, rc_fixed, rc_each, rc_check,
  decode_with,
}
use obicall.Cursor.Writes.{fields, each_field}
use obicall.Checkpoint.{
  Checkpoint, SourcePosition, blank_source, max_tracked_sources, max_state_dim, max_state_cov,
  sizeof_checkpoint,
}
use obicall.FusionResult.{pipeline_id_len}
use obicall.Observation.{sensor_id_len}
use obicall.Status.{Result, ok, err, wire_malformed, buffer_too_small}

pub source_writer : SourcePosition → Writer
source_writer p =
    block (wc_fixed p.sensor_id ∷ wc_u64 p.source_boot_id ∷ wc_u64 p.last_sequence ∷ [])

pub checkpoint_writers : Checkpoint → List Writer
checkpoint_writers k =
    wc_u32 k.struct_size
    ∷ wc_u32 k.schema_version
    ∷ wc_fixed k.pipeline_id
    ∷ wc_u64 k.window_seq
    ∷ wc_u32 k.estimator_mode
    ∷ wc_u32 k.state_dim
    ∷ wc_each wc_f64 k.state_dim k.state_mean
    ∷ wc_each wc_f64 (k.state_dim * k.state_dim) k.state_covariance
    ∷ wc_u32 k.calibration_version
    ∷ wc_u32 k.policy_version
    ∷ wc_u32 k.dgt_action_id
    ∷ wc_u32 k.source_count
    ∷ wc_each source_writer k.source_count k.sources
    ∷ wc_i64 k.created_at_ns
    ∷ []

abbrev pub too_many_states : Checkpoint → Bool
too_many_states k = ltb max_state_dim k.state_dim || ltb max_tracked_sources k.source_count

pub encode_checkpoint : Checkpoint → ℕ → Result (List ℕ)
encode_checkpoint k out_cap =
    if too_many_states k
    then err wire_malformed
    else encode_with buffer_too_small out_cap (checkpoint_writers k)

pub source_reader : Reader SourcePosition
source_reader = do
  sensor_id ← rc_fixed sensor_id_len
  source_boot_id ← rc_u64
  last_sequence ← rc_u64
  pure (record {
    sensor_id = sensor_id;
    source_boot_id = source_boot_id;
    last_sequence = last_sequence;
  })

pub checkpoint_reader : Reader Checkpoint
checkpoint_reader = do
  struct_size ← rc_u32
  schema_version ← rc_u32
  pipeline_id ← rc_fixed pipeline_id_len
  window_seq ← rc_u64
  estimator_mode ← rc_u32
  state_dim ← rc_u32
  rc_check (ltb max_state_dim state_dim)
  state_mean ← rc_each rc_f64 state_dim
  state_covariance ← rc_each rc_f64 (state_dim * state_dim)
  calibration_version ← rc_u32
  policy_version ← rc_u32
  dgt_action_id ← rc_u32
  source_count ← rc_u32
  rc_check (ltb max_tracked_sources source_count)
  sources ← rc_each source_reader source_count
  created_at_ns ← rc_i64
  pure (record {
    struct_size = sizeof_checkpoint;
    schema_version = schema_version;
    pipeline_id = pipeline_id;
    window_seq = window_seq;
    estimator_mode = estimator_mode;
    state_dim = state_dim;
    state_mean = padded max_state_dim 0 state_mean;
    state_covariance = padded max_state_cov 0 state_covariance;
    calibration_version = calibration_version;
    policy_version = policy_version;
    dgt_action_id = dgt_action_id;
    source_count = source_count;
    sources = padded max_tracked_sources blank_source sources;
    created_at_ns = created_at_ns;
  })

pub decode_checkpoint : List ℕ → Result Checkpoint
decode_checkpoint input = decode_with checkpoint_reader input

-- The wire formats.
pub source_layout : SourcePosition → List ℕ
source_layout p = fields (p.sensor_id ∷ octets 8 p.source_boot_id ∷ octets 8 p.last_sequence ∷ [])

pub checkpoint_layout : Checkpoint → List ℕ
checkpoint_layout k = fields (
    octets 4 k.struct_size
    ∷ octets 4 k.schema_version
    ∷ k.pipeline_id
    ∷ octets 8 k.window_seq
    ∷ octets 4 k.estimator_mode
    ∷ octets 4 k.state_dim
    ∷ each_field (octets 8) (take k.state_dim k.state_mean)
    ∷ each_field (octets 8) (take (k.state_dim * k.state_dim) k.state_covariance)
    ∷ octets 4 k.calibration_version
    ∷ octets 4 k.policy_version
    ∷ octets 4 k.dgt_action_id
    ∷ octets 4 k.source_count
    ∷ each_field source_layout (take k.source_count k.sources)
    ∷ octets 8 (to_unsigned 63 k.created_at_ns)
    ∷ [])

-- What a decoder makes of an encoded checkpoint: the slots behind the counts are blank.
pub received_checkpoint : Checkpoint → Checkpoint
received_checkpoint k = record k {
  struct_size = sizeof_checkpoint;
  state_mean = padded max_state_dim 0 (take k.state_dim k.state_mean);
  state_covariance = padded max_state_cov 0 (take (k.state_dim * k.state_dim) k.state_covariance);
  sources = padded max_tracked_sources blank_source (take k.source_count k.sources);
}
