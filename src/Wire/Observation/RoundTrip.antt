-- ===== src/Wire/Observation/RoundTrip.antt =====
-- The observation codec: what it writes, and that decoding inverts it.
use obicall.Common.{
  ℕ, ◌^◌, ◌<◌, ◌≡◌, ap, false, List, ◌∷◌, ◌++◌, arith, ltb, leb, if◌then◌else◌, length, take,
}
use obicall.Cursor.Write.{block, encode_with}
use obicall.Cursor.Read.{rc_f64, rc_each}
use obicall.Cursor.Writes.{Writes, writes_rules, encode_with-Writes}
use obicall.Cursor.Reads.{Reads}
use obicall.Cursor.Codec.{
  Reads-f64_array, Reads-field, Reads-end, Reads-guard, Reads-u32, Reads-i64, Reads-u64, Reads-f64,
  Reads-fixed, sticky_rules,
}
use obicall.Observation.{Observation, IsObservation, max_payload_doubles, max_cov_doubles}
use obicall.Status.{Result, ok, err, wire_malformed, buffer_too_small}
use obicall.Cursor.RoundTrip
use obicall.Wire.Observation.{
  observation_writers, too_many_doubles, encode_observation, observation_reader, decode_observation,
  f64s, observation_layout, received,
}

pub observation_writers-Writes :
    (obs : Observation) → Writes (block (observation_writers obs)) (observation_layout obs)
unfolding observation_writers observation_layout
observation_writers-Writes obs = search writes_rules depth 60

observation_reader-Reads :
    (obs : Observation)
    → IsObservation obs
    → ltb max_payload_doubles obs.payload_count ≡ false
    → ltb max_cov_doubles obs.covariance_count ≡ false
    → Reads observation_reader (observation_layout obs) (received obs)
unfolding observation_reader observation_layout received
observation_reader-Reads obs v hp hc =
    Reads-field _ (Reads-u32 _ v.struct_size_word) (search sticky_rules depth 60 fits 20000) (
      Reads-field _ (Reads-u32 _ v.schema_version_word) (search sticky_rules depth 60 fits 20000) (
        Reads-field _ (Reads-fixed _ _ v.sensor_id_length) (search sticky_rules depth 60 fits 20000)
          (Reads-field _ (Reads-u64 _ v.source_boot_id_word)
            (search sticky_rules depth 60 fits 20000)
            (Reads-field _ (Reads-u64 _ v.sequence_word) (search sticky_rules depth 60 fits 20000) (
              Reads-field _ (Reads-i64 _ v.sample_time_word)
                (search sticky_rules depth 60 fits 20000)
                (Reads-field _ (Reads-i64 _ v.arrival_time_word)
                  (search sticky_rules depth 60 fits 20000)
                  (Reads-field _ (Reads-u32 _ v.clock_domain_word)
                    (search sticky_rules depth 60 fits 20000)
                    (Reads-field _ (Reads-f64 _ v.time_uncertainty_word)
                      (search sticky_rules depth 60 fits 20000)
                      (Reads-field _ (Reads-u32 _ v.coordinate_frame_word)
                        (search sticky_rules depth 60 fits 20000)
                        (Reads-field _ (Reads-u32 _ v.units_word)
                          (search sticky_rules depth 60 fits 20000)
                          (Reads-field _ (Reads-u32 _ v.calibration_version_word)
                            (search sticky_rules depth 60 fits 20000)
                            (Reads-field _ (Reads-u32 _ v.payload_shape_word)
                              (search sticky_rules depth 60 fits 20000)
                              (Reads-field _ (Reads-u32 _ v.payload_count_word)
                                (search sticky_rules depth 60 fits 20000)
                                (Reads-guard _ hp (search sticky_rules depth 60 fits 20000) (
                                  Reads-field _ (payload-Reads)
                                    (search sticky_rules depth 60 fits 20000)
                                    (Reads-field _ (Reads-u32 _ v.covariance_count_word)
                                      (search sticky_rules depth 60 fits 20000)
                                      (Reads-guard _ hc (search sticky_rules depth 60 fits 20000) (
                                        Reads-field _ (covariance-Reads)
                                          (search sticky_rules depth 60 fits 20000)
                                          (Reads-end _)))))))))))))))))))
  where
    payload-Reads :
        Reads
          (rc_each rc_f64 obs.payload_count)
          (f64s obs.payload_count obs.payload)
          (take obs.payload_count obs.payload)
    payload-Reads =
        Reads-f64_array obs.payload_count obs.payload (ground (arith, v.payload_length))
          v.payload_words

    covariance-Reads :
        Reads
          (rc_each rc_f64 obs.covariance_count)
          (f64s obs.covariance_count obs.covariance)
          (take obs.covariance_count obs.covariance)
    covariance-Reads =
        Reads-f64_array obs.covariance_count obs.covariance (ground (arith, v.covariance_length))
          v.covariance_words

-- An observation is encoded as its wire format if that fits the buffer. Else the buffer is
-- reported as too small, and before that a count that its array cannot hold as malformed.
pub encode_observation_lem :
    (obs : Observation) (out_cap : ℕ)
    → out_cap < 2 ^ 32
    → encode_observation obs out_cap ≡ (
        if too_many_doubles obs
        then err wire_malformed
        else if leb (length (observation_layout obs)) out_cap
        then ok (observation_layout obs)
        else err buffer_too_small)
unfolding encode_observation
encode_observation_lem obs out_cap word =
    ap (λ (r : Result (List ℕ)). if too_many_doubles obs then err wire_malformed else r)
      (encode_with-Writes buffer_too_small out_cap _ _ (observation_writers-Writes obs) word)

-- What a successful encoding says of the counts and of the unguarded encoder.
pub encode_observation-ok :
    (obs : Observation) (out_cap : ℕ) (bs : List ℕ)
    → encode_observation obs out_cap ≡ ok bs
    → (ltb max_payload_doubles obs.payload_count ≡ false)
      × (ltb max_cov_doubles obs.covariance_count ≡ false)
      × (encode_with buffer_too_small out_cap (observation_writers obs) ≡ ok bs)
unfolding encode_observation
encode_observation-ok obs out_cap bs done = ground arith

module _ (obs : Observation) (out_cap : ℕ) (v : IsObservation obs) (word : out_cap < 2 ^ 32)
    (bs : List ℕ) (done : encode_observation obs out_cap ≡ ok bs) where
  -- Decoding an encoded observation gives the observation back, with this host's struct size and
  -- zeros behind the counts, whatever bytes follow.
  pub decode-encode_observation :
      (post : List ℕ)
      → length (bs ++ post) < 2 ^ 32
      → decode_observation (bs ++ post) ≡ ok (received obs)
  unfolding decode_observation
  decode-encode_observation post h =
      let (hp, hc, plain) = encode_observation-ok obs out_cap bs done in
      RoundTrip.decode-encode _ out_cap _ _ _ (received obs) (observation_writers-Writes obs)
        (observation_reader-Reads obs v hp hc) word bs plain post h

  -- Every proper prefix of an encoded observation is refused as malformed.
  pub decode_observation_cut :
      (s t : List ℕ) (x : ℕ) → bs ≡ s ++ (x ∷ t) → decode_observation s ≡ err wire_malformed
  unfolding decode_observation
  decode_observation_cut s t x e =
      let (hp, hc, plain) = encode_observation-ok obs out_cap bs done in
      RoundTrip.decode_cut _ out_cap _ _ _ (received obs) (observation_writers-Writes obs)
        (observation_reader-Reads obs v hp hc) word bs plain s x t e
