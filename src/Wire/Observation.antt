-- ===== src/Wire/Observation.antt =====
-- src/core/wire.c: `obicall_wire_encode_observation` and `obicall_wire_decode_observation`.
pub mod RoundTrip
pub mod Bytes
mod Tests
use obicall.Common.{
  ℕ, ◌^◌, ◌≤◌, ◌<◌, ◌≡◌, sym, ap, subst, length-append, Bool, false, ◌||◌, List, [], ◌∷◌, ◌++◌,
  arith, ltb, leb, if◌then◌else◌, length, take, padded, to_unsigned,
}
use obicall.Cursor.Octets.{octets}
use obicall.Cursor.Write.{
  Writer, wc_u32, wc_u64, wc_i64, wc_f64, wc_fixed, wc_each, block, encode_with,
}
use obicall.Cursor.Read.{
  Reader, ◌>>=◌, ◌>>◌, pure, rc_u32, rc_u64, rc_i64, rc_f64, rc_fixed, rc_each, rc_check,
  decode_with,
}
use obicall.Cursor.Writes.{Writes, fields, each_field, writes_rules, encode_with-Writes}
use obicall.Cursor.Reads.{Reads}
use obicall.Cursor.Codec.{
  Reads-f64_array, Reads-field, Reads-end, Reads-guard, Reads-u32, Reads-i64, Reads-u64, Reads-f64,
  Reads-fixed, sticky_rules, decode_with-Reads, decode_with_cut,
}
use obicall.Observation.{
  Observation, IsObservation, max_payload_doubles, max_cov_doubles, sensor_id_len,
  sizeof_observation,
}
use obicall.Status.{Result, ok, err, wire_malformed, buffer_too_small}

pub observation_writers : Observation → List Writer
observation_writers obs =
    wc_u32 obs.struct_size
    ∷ wc_u32 obs.schema_version
    ∷ wc_fixed obs.sensor_id
    ∷ wc_u64 obs.source_boot_id
    ∷ wc_u64 obs.sequence
    ∷ wc_i64 obs.sample_time_ns
    ∷ wc_i64 obs.arrival_time_ns
    ∷ wc_u32 obs.clock_domain
    ∷ wc_f64 obs.time_uncertainty_s
    ∷ wc_u32 obs.coordinate_frame
    ∷ wc_u32 obs.units
    ∷ wc_u32 obs.calibration_version
    ∷ wc_u32 obs.payload_shape
    ∷ wc_u32 obs.payload_count
    ∷ wc_each wc_f64 obs.payload_count obs.payload
    ∷ wc_u32 obs.covariance_count
    ∷ wc_each wc_f64 obs.covariance_count obs.covariance
    ∷ []

abbrev pub too_many_doubles : Observation → Bool
too_many_doubles obs =
    ltb max_payload_doubles obs.payload_count || ltb max_cov_doubles obs.covariance_count

pub encode_observation : Observation → ℕ → Result (List ℕ)
encode_observation obs out_cap =
    if too_many_doubles obs
    then err wire_malformed
    else encode_with buffer_too_small out_cap (observation_writers obs)

pub observation_reader : Reader Observation
observation_reader = do
  struct_size ← rc_u32
  schema_version ← rc_u32
  sensor_id ← rc_fixed sensor_id_len
  source_boot_id ← rc_u64
  sequence ← rc_u64
  sample_time_ns ← rc_i64
  arrival_time_ns ← rc_i64
  clock_domain ← rc_u32
  time_uncertainty_s ← rc_f64
  coordinate_frame ← rc_u32
  units ← rc_u32
  calibration_version ← rc_u32
  payload_shape ← rc_u32
  payload_count ← rc_u32
  rc_check (ltb max_payload_doubles payload_count)
  payload ← rc_each rc_f64 payload_count
  covariance_count ← rc_u32
  rc_check (ltb max_cov_doubles covariance_count)
  covariance ← rc_each rc_f64 covariance_count
  pure (record {
    struct_size = sizeof_observation;
    schema_version = schema_version;
    sensor_id = sensor_id;
    source_boot_id = source_boot_id;
    sequence = sequence;
    sample_time_ns = sample_time_ns;
    arrival_time_ns = arrival_time_ns;
    clock_domain = clock_domain;
    time_uncertainty_s = time_uncertainty_s;
    coordinate_frame = coordinate_frame;
    units = units;
    calibration_version = calibration_version;
    payload_shape = payload_shape;
    payload_count = payload_count;
    payload = padded max_payload_doubles 0 payload;
    covariance_count = covariance_count;
    covariance = padded max_cov_doubles 0 covariance;
  })

pub decode_observation : List ℕ → Result Observation
decode_observation input = decode_with observation_reader input

abbrev pub f64s : ℕ → List ℕ → List ℕ
f64s n xs = each_field (octets 8) (take n xs)

-- The wire format of an observation.
unfoldable pub observation_layout : Observation → List ℕ
observation_layout obs = fields (
    octets 4 obs.struct_size
    ∷ octets 4 obs.schema_version
    ∷ obs.sensor_id
    ∷ octets 8 obs.source_boot_id
    ∷ octets 8 obs.sequence
    ∷ octets 8 (to_unsigned 63 obs.sample_time_ns)
    ∷ octets 8 (to_unsigned 63 obs.arrival_time_ns)
    ∷ octets 4 obs.clock_domain
    ∷ octets 8 obs.time_uncertainty_s
    ∷ octets 4 obs.coordinate_frame
    ∷ octets 4 obs.units
    ∷ octets 4 obs.calibration_version
    ∷ octets 4 obs.payload_shape
    ∷ octets 4 obs.payload_count
    ∷ f64s obs.payload_count obs.payload
    ∷ octets 4 obs.covariance_count
    ∷ f64s obs.covariance_count obs.covariance
    ∷ [])

-- What a decoder makes of an encoded observation: the slots behind the counts are zero.
pub received : Observation → Observation
received obs = record obs {
  struct_size = sizeof_observation;
  payload = padded max_payload_doubles 0 (take obs.payload_count obs.payload);
  covariance = padded max_cov_doubles 0 (take obs.covariance_count obs.covariance);
}
