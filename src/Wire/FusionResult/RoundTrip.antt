-- ===== src/Wire/FusionResult/RoundTrip.antt =====
-- The codec of fusion results: what it writes, and that decoding inverts it.
use obicall.Common.{
  ℕ, ◌^◌, ◌<◌, ◌≡◌, ap, false, List, ◌∷◌, ◌++◌, arith, ltb, leb, if◌then◌else◌, length,
}
use obicall.Cursor.Write.{block, encode_with}
use obicall.Cursor.Writes.{Writes, writes_rules, encode_with-Writes}
use obicall.Cursor.Reads.{Reads, Reads-bytes}
use obicall.Cursor.Codec.{
  Reads-f64_array, Reads-names, Reads-field, Reads-end, Reads-guard, Reads-u32, Reads-i64,
  Reads-u64, Reads-fixed, sticky_rules,
}
use obicall.Cursor.RoundTrip
use obicall.Observation.{max_payload_doubles, max_cov_doubles}
use obicall.FusionResult.{FusionResult, IsFusionResult, max_sources}
use obicall.Status.{Result, ok, err, wire_malformed, buffer_too_small}
use obicall.Wire.FusionResult.{
  result_writers, too_many_entries, encode_result, result_reader, decode_result, result_layout,
  received_result,
}

result_writers-Writes : (r : FusionResult) → Writes (block (result_writers r)) (result_layout r)
unfolding result_writers result_layout
result_writers-Writes r = search writes_rules depth 60

result_reader-Reads :
    (r : FusionResult)
    → IsFusionResult r
    → ltb max_payload_doubles r.payload_count ≡ false
    → ltb max_cov_doubles r.covariance_count ≡ false
    → ltb max_sources r.source_count ≡ false
    → Reads result_reader (result_layout r) (received_result r)
unfolding result_reader result_layout received_result
result_reader-Reads r v h_payload_count h_covariance_count h_source_count =
    Reads-field _ (Reads-u32 _ v.struct_size_word) (search sticky_rules depth 60 fits 20000) (
      Reads-field _ (Reads-u32 _ v.schema_version_word) (search sticky_rules depth 60 fits 20000) (
        Reads-field _ (Reads-fixed _ _ v.pipeline_id_length)
          (search sticky_rules depth 60 fits 20000)
          (Reads-field _ (Reads-u64 _ v.window_seq_word) (search sticky_rules depth 60 fits 20000) (
            Reads-field _ (Reads-u32 _ v.broker_id_word) (search sticky_rules depth 60 fits 20000) (
              Reads-field _ (Reads-u64 _ v.epoch_word) (search sticky_rules depth 60 fits 20000) (
                Reads-field _ (Reads-u32 _ v.status_word) (search sticky_rules depth 60 fits 20000)
                  (Reads-field _ (Reads-u32 _ v.payload_shape_word)
                    (search sticky_rules depth 60 fits 20000)
                    (Reads-field _ (Reads-u32 _ v.payload_count_word)
                      (search sticky_rules depth 60 fits 20000)
                      (Reads-guard _ h_payload_count (search sticky_rules depth 60 fits 20000) (
                        Reads-field _
                          (Reads-f64_array _ _ (ground (arith, v.payload_length)) v.payload_words)
                          (search sticky_rules depth 60 fits 20000)
                          (Reads-field _ (Reads-u32 _ v.covariance_count_word)
                            (search sticky_rules depth 60 fits 20000)
                            (Reads-guard _ h_covariance_count
                              (search sticky_rules depth 60 fits 20000)
                              (Reads-field _
                                (Reads-f64_array _ _ (ground (arith, v.covariance_length))
                                  v.covariance_words)
                                (search sticky_rules depth 60 fits 20000)
                                (Reads-field _ (Reads-bytes _ _ v.input_digest_length)
                                  (search sticky_rules depth 60 fits 20000)
                                  (Reads-field _ (Reads-bytes _ _ v.config_digest_length)
                                    (search sticky_rules depth 60 fits 20000)
                                    (Reads-field _ (Reads-i64 _ v.timestamp_ns_word)
                                      (search sticky_rules depth 60 fits 20000)
                                      (Reads-field _ (Reads-i64 _ v.valid_until_ns_word)
                                        (search sticky_rules depth 60 fits 20000)
                                        (Reads-field _ (Reads-u32 _ v.source_count_word)
                                          (search sticky_rules depth 60 fits 20000)
                                          (Reads-guard _ h_source_count
                                            (search sticky_rules depth 60 fits 20000)
                                            (Reads-field _
                                              (Reads-names _ _ _ (ground (arith, v.sources_length))
                                                v.sources_names)
                                              (search sticky_rules depth 60 fits 20000)
                                              (Reads-field _ (Reads-u32 _ v.dgt_action_id_word)
                                                (search sticky_rules depth 60 fits 20000)
                                                (Reads-end _))))))))))))))))))))))

-- A fusion result is encoded as its wire format if that fits the buffer. Else the buffer is
-- reported as too small, and before that a count that its array cannot hold as malformed.
pub encode_result_lem :
    (r : FusionResult) (out_cap : ℕ)
    → out_cap < 2 ^ 32
    → encode_result r out_cap ≡ (
        if too_many_entries r
        then err wire_malformed
        else if leb (length (result_layout r)) out_cap
        then ok (result_layout r)
        else err buffer_too_small)
unfolding encode_result
encode_result_lem r out_cap word =
    ap (λ (x : Result (List ℕ)). if too_many_entries r then err wire_malformed else x)
      (encode_with-Writes buffer_too_small out_cap _ _ (result_writers-Writes r) word)

encode_result-ok :
    (r : FusionResult) (out_cap : ℕ) (bs : List ℕ)
    → encode_result r out_cap ≡ ok bs
    → (ltb max_payload_doubles r.payload_count ≡ false)
      × (ltb max_cov_doubles r.covariance_count ≡ false)
      × (ltb max_sources r.source_count ≡ false)
      × (encode_with buffer_too_small out_cap (result_writers r) ≡ ok bs)
unfolding encode_result
encode_result-ok r out_cap bs done = ground arith

module _ (r : FusionResult) (out_cap : ℕ) (v : IsFusionResult r) (word : out_cap < 2 ^ 32)
    (bs : List ℕ) (done : encode_result r out_cap ≡ ok bs) where
  -- Decoding an encoded fusion result gives it back, with this host's struct size and blank slots
  -- behind the counts, whatever bytes follow.
  pub decode-encode_result :
      (post : List ℕ)
      → length (bs ++ post) < 2 ^ 32
      → decode_result (bs ++ post) ≡ ok (received_result r)
  unfolding decode_result
  decode-encode_result post h =
      let (hp, hc, hs, plain) = encode_result-ok r out_cap bs done in
      RoundTrip.decode-encode _ out_cap _ _ _ (received_result r) (result_writers-Writes r)
        (result_reader-Reads r v hp hc hs) word bs plain post h

  -- Every proper prefix of an encoded fusion result is refused as malformed.
  pub decode_result_cut :
      (s t : List ℕ) (x : ℕ) → bs ≡ s ++ (x ∷ t) → decode_result s ≡ err wire_malformed
  unfolding decode_result
  decode_result_cut s t x e =
      let (hp, hc, hs, plain) = encode_result-ok r out_cap bs done in
      RoundTrip.decode_cut _ out_cap _ _ _ (received_result r) (result_writers-Writes r)
        (result_reader-Reads r v hp hc hs) word bs plain s x t e
