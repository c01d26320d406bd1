-- ===== src/Wire/FusionResult.antt =====
-- src/core/wire.c: `obicall_wire_encode_result` and `obicall_wire_decode_result`.
pub mod RoundTrip
mod Tests
use obicall.Common.{
  ℕ, ◌+◌, ◌-◌, ◌^◌, ◌<◌, ◌≡◌, ap, Bool, true, false, ◌||◌, List, [], ◌∷◌, ◌++◌, arith, ltb, leb,
  if◌then◌else◌, length, take, replicate, padded, ℤ, to_unsigned,
}
use obicall.Cursor.Octets.{octets}
use obicall.Cursor.Write.{
  Writer, wc_u32, wc_u64, wc_i64, wc_f64, wc_fixed, wc_bytes, wc_each, block, encode_with,
}
use obicall.Cursor.Read.{
  Reader, ◌>>=◌, ◌>>◌, pure, rc_u32, rc_u64, rc_i64, rc_f64, rc_fixed, rc_bytes, rc_each, rc_check,
  decode_with,
}
use obicall.Cursor.Writes.{Writes, fields, each_field, writes_rules, encode_with-Writes}
use obicall.Cursor.Reads.{Reads, Reads-bytes}
use obicall.Cursor.Codec.{
  Reads-f64_array, Reads-names, Reads-field, Reads-end, Reads-guard, Reads-u32, Reads-i64,
  Reads-u64, Reads-fixed, sticky_rules,
}
use obicall.Observation.{max_payload_doubles, max_cov_doubles, sensor_id_len}
use obicall.FusionResult.{
  FusionResult, IsFusionResult, max_sources, pipeline_id_len, digest_len, sizeof_fusion_result,
  blank_name,
}
use obicall.Status.{Result, ok, err, wire_malformed, buffer_too_small}

pub result_writers : FusionResult → List Writer
result_writers r =
    wc_u32 r.struct_size
    ∷ wc_u32 r.schema_version
    ∷ wc_fixed r.pipeline_id
    ∷ wc_u64 r.window_seq
    ∷ wc_u32 r.broker_id
    ∷ wc_u64 r.epoch
    ∷ wc_u32 r.status
    ∷ wc_u32 r.payload_shape
    ∷ wc_u32 r.payload_count
    ∷ wc_each wc_f64 r.payload_count r.payload
    ∷ wc_u32 r.covariance_count
    ∷ wc_each wc_f64 r.covariance_count r.covariance
    ∷ wc_bytes r.input_digest
    ∷ wc_bytes r.config_digest
    ∷ wc_i64 r.timestamp_ns
    ∷ wc_i64 r.valid_until_ns
    ∷ wc_u32 r.source_count
    ∷ wc_each wc_fixed r.source_count r.sources
    ∷ wc_u32 r.dgt_action_id
    ∷ []

abbrev pub too_many_entries : FusionResult → Bool
too_many_entries r =
    ltb max_payload_doubles r.payload_count
    || ltb max_cov_doubles r.covariance_count
    || ltb max_sources r.source_count

pub encode_result : FusionResult → ℕ → Result (List ℕ)
encode_result r out_cap =
    if too_many_entries r
    then err wire_malformed
    else encode_with buffer_too_small out_cap (result_writers r)

pub result_reader : Reader FusionResult
result_reader = do
  struct_size ← rc_u32
  schema_version ← rc_u32
  pipeline_id ← rc_fixed pipeline_id_len
  window_seq ← rc_u64
  broker_id ← rc_u32
  epoch ← rc_u64
  status ← rc_u32
  payload_shape ← rc_u32
  payload_count ← rc_u32
  rc_check (ltb max_payload_doubles payload_count)
  payload ← rc_each rc_f64 payload_count
  covariance_count ← rc_u32
  rc_check (ltb max_cov_doubles covariance_count)
  covariance ← rc_each rc_f64 covariance_count
  input_digest ← rc_bytes digest_len
  config_digest ← rc_bytes digest_len
  timestamp_ns ← rc_i64
  valid_until_ns ← rc_i64
  source_count ← rc_u32
  rc_check (ltb max_sources source_count)
  sources ← rc_each (rc_fixed sensor_id_len) source_count
  dgt_action_id ← rc_u32
  pure (record {
    struct_size = sizeof_fusion_result;
    schema_version = schema_version;
    pipeline_id = pipeline_id;
    window_seq = window_seq;
    broker_id = broker_id;
    epoch = epoch;
    status = status;
    payload_shape = payload_shape;
    payload_count = payload_count;
    payload = padded max_payload_doubles 0 payload;
    covariance_count = covariance_count;
    covariance = padded max_cov_doubles 0 covariance;
    input_digest = input_digest;
    config_digest = config_digest;
    timestamp_ns = timestamp_ns;
    valid_until_ns = valid_until_ns;
    source_count = source_count;
    sources = padded max_sources blank_name sources;
    dgt_action_id = dgt_action_id;
  })

unfoldable pub decode_result : List ℕ → Result FusionResult
decode_result input = decode_with result_reader input

-- The wire format of a fusion result.
pub result_layout : FusionResult → List ℕ
result_layout r = fields (
    octets 4 r.struct_size
    ∷ octets 4 r.schema_version
    ∷ r.pipeline_id
    ∷ octets 8 r.window_seq
    ∷ octets 4 r.broker_id
    ∷ octets 8 r.epoch
    ∷ octets 4 r.status
    ∷ octets 4 r.payload_shape
    ∷ octets 4 r.payload_count
    ∷ each_field (octets 8) (take r.payload_count r.payload)
    ∷ octets 4 r.covariance_count
    ∷ each_field (octets 8) (take r.covariance_count r.covariance)
    ∷ r.input_digest
    ∷ r.config_digest
    ∷ octets 8 (to_unsigned 63 r.timestamp_ns)
    ∷ octets 8 (to_unsigned 63 r.valid_until_ns)
    ∷ octets 4 r.source_count
    ∷ each_field (λ s. s) (take r.source_count r.sources)
    ∷ octets 4 r.dgt_action_id
    ∷ [])

-- What a decoder makes of an encoded result: the slots behind the counts are blank.
pub received_result : FusionResult → FusionResult
received_result r = record r {
  struct_size = sizeof_fusion_result;
  payload = padded max_payload_doubles 0 (take r.payload_count r.payload);
  covariance = padded max_cov_doubles 0 (take r.covariance_count r.covariance);
  sources = padded max_sources blank_name (take r.source_count r.sources);
}
