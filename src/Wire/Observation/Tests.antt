-- ===== src/Wire/Observation/Tests.antt =====
-- Runs of the observation codec.
use obicall.Common.{
  ℕ, ◌≡◌, refl, List, [], ◌∷◌, ◌++◌, arith, drop, replicate, All-replicate, pos, negsuc,
}
use obicall.Cursor.Octets.{IsByte, octets}
use obicall.Cursor.Writes.{fields, each_field}
use obicall.Cursor.Codec.{IsWord}
use obicall.Observation.{Observation, IsObservation, sizeof_observation}
use obicall.Status.{ok, err, wire_malformed}
use obicall.Wire.Observation.{encode_observation, decode_observation, observation_layout, received}
use obicall.Wire.Observation.RoundTrip.{
  encode_observation_lem, decode-encode_observation, decode_observation_cut,
}

abbrev reading : Observation
reading = record {
  struct_size = sizeof_observation;
  schema_version = 1;
  sensor_id = replicate 32 0x61;
  source_boot_id = 7;
  sequence = 4294967296;
  sample_time_ns = pos 1000;
  arrival_time_ns = negsuc 4;
  clock_domain = 1;
  time_uncertainty_s = 0x3F50624DD2F1A9FC;
  coordinate_frame = 2;
  units = 1;
  calibration_version = 3;
  payload_shape = 1;
  payload_count = 2;
  payload = replicate 6 0x3FF0000000000000;
  covariance_count = 4;
  covariance = replicate 36 0x3FE0000000000000;
}

reading-IsObservation : IsObservation reading
reading-IsObservation = record {
  struct_size_word = omega arith;
  schema_version_word = omega arith;
  sensor_id_length = refl;
  sensor_id_bytes = All-replicate IsByte 32 _ (omega arith);
  source_boot_id_word = omega arith;
  sequence_word = omega arith;
  sample_time_word = (omega arith, omega arith);
  arrival_time_word = (omega arith, omega arith);
  clock_domain_word = omega arith;
  time_uncertainty_word = omega arith;
  coordinate_frame_word = omega arith;
  units_word = omega arith;
  calibration_version_word = omega arith;
  payload_shape_word = omega arith;
  payload_count_word = omega arith;
  payload_length = refl;
  payload_words = All-replicate (IsWord 64) 6 _ (omega arith);
  covariance_count_word = omega arith;
  covariance_length = refl;
  covariance_words = All-replicate (IsWord 64) 36 _ (omega arith);
}

abbrev frame : List ℕ
frame = observation_layout reading

reading-done : encode_observation reading 512 ≡ ok frame
unfolding observation_layout fields octets each_field
reading-done = encode_observation_lem reading 512 (omega arith)

decode-encode_observation_example : decode_observation (frame ++ (9 ∷ [])) ≡ ok (received reading)
unfolding observation_layout fields octets each_field
decode-encode_observation_example =
    decode-encode_observation reading 512 reading-IsObservation (omega arith) frame reading-done
      (9 ∷ []) (omega arith)

decode_observation_cut_example : decode_observation (0xC8 ∷ 1 ∷ 0 ∷ []) ≡ err wire_malformed
unfolding observation_layout fields octets each_field
decode_observation_cut_example =
    decode_observation_cut reading 512 reading-IsObservation (omega arith) frame reading-done
      (0xC8 ∷ 1 ∷ 0 ∷ []) (drop 4 frame) 0 refl
