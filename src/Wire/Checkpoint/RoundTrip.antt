-- ===== src/Wire/Checkpoint/RoundTrip.antt =====
-- The checkpoint codec, each direction the inverse of the other.
use obicall.Common.{
  ℕ, ◌*◌, ◌^◌, ◌≤◌, ◌<◌, ◌≡◌, ap, false, List, ◌∷◌, ◌++◌, arith, ltb, leb, if◌then◌else◌, length,
  length-take, take, take-All, All,
}
use native.Mathlib.Nat.{mul-le-mul_left, mul-le-mul_right}
use obicall.Cursor.Write.{wc_each, block, encode_with}
use obicall.Cursor.Read.{rc_each}
use obicall.Cursor.Writes.{Writes, each_field, writes_rules, Writes-each, encode_with-Writes}
use obicall.Cursor.Reads.{Reads, IsSticky}
use obicall.Cursor.Codec.{
  Reads-f64_array, Reads-field, Reads-end, Reads-guard, Reads-u32, Reads-i64, Reads-u64,
  Reads-fixed, Reads-each, IsSticky-each, sticky_rules, reads_rules,
}
use obicall.Cursor.RoundTrip
use obicall.Checkpoint.{
  Checkpoint, SourcePosition, IsSourcePosition, IsCheckpoint, max_tracked_sources, max_state_dim,
  max_state_cov,
}
use obicall.Status.{Result, ok, err, wire_malformed, buffer_too_small}
use obicall.Wire.Checkpoint.{
  source_writer, source_reader, source_layout, checkpoint_writers, too_many_states,
  encode_checkpoint, checkpoint_reader, decode_checkpoint, checkpoint_layout, received_checkpoint,
}

source_writer-Writes : (p : SourcePosition) → Writes (source_writer p) (source_layout p)
unfolding source_writer source_layout
source_writer-Writes p = search writes_rules depth 40

sources-Writes :
    (n : ℕ) (ps : List SourcePosition)
    → Writes (wc_each source_writer n ps) (each_field source_layout (take n ps))
sources-Writes n ps = Writes-each source_writer source_layout n ps source_writer-Writes

checkpoint_writers-Writes :
    (k : Checkpoint) → Writes (block (checkpoint_writers k)) (checkpoint_layout k)
unfolding checkpoint_writers checkpoint_layout
checkpoint_writers-Writes k = search (writes_rules, sources-Writes) depth 60

source_reader-IsSticky : IsSticky source_reader
unfolding source_reader
source_reader-IsSticky = search sticky_rules depth 60 fits 20000

source_reader-Reads :
    (p : SourcePosition) → IsSourcePosition p → Reads source_reader (source_layout p) p
unfolding source_reader source_layout
source_reader-Reads p v =
    search (reads_rules, v.sensor_id_length, v.source_boot_id_word, v.last_sequence_word) depth 40

sources-IsSticky : (n : ℕ) → IsSticky (rc_each source_reader n)
sources-IsSticky = IsSticky-each source_reader source_reader-IsSticky

sources-Reads :
    (n : ℕ) (ps : List SourcePosition)
    → n ≤ length ps
    → All IsSourcePosition ps
    → Reads (rc_each source_reader n) (each_field source_layout (take n ps)) (take n ps)
sources-Reads n ps h all =
    Reads-each source_reader source_reader-IsSticky source_layout IsSourcePosition
      source_reader-Reads n (take n ps) (length-take n ps h) (take-All IsSourcePosition n ps all)

-- A state's covariance fits its array.
square-le : (n : ℕ) → ltb max_state_dim n ≡ false → n * n ≤ max_state_cov
square-le n h = omega (arith, mul-le-mul_left n small, mul-le-mul_right 6 small)
  where
    small : n ≤ 6
    small = ground arith

checkpoint_reader-Reads :
    (k : Checkpoint)
    → IsCheckpoint k
    → ltb max_state_dim k.state_dim ≡ false
    → ltb max_tracked_sources k.source_count ≡ false
    → Reads checkpoint_reader (checkpoint_layout k) (received_checkpoint k)
unfolding checkpoint_reader checkpoint_layout received_checkpoint
checkpoint_reader-Reads k v hd hs =
    Reads-field _ (Reads-u32 _ v.struct_size_word)
      (search (sticky_rules, sources-IsSticky) depth 60 fits 20000)
      (Reads-field _ (Reads-u32 _ v.schema_version_word)
        (search (sticky_rules, sources-IsSticky) depth 60 fits 20000)
        (Reads-field _ (Reads-fixed _ _ v.pipeline_id_length)
          (search (sticky_rules, sources-IsSticky) depth 60 fits 20000)
          (Reads-field _ (Reads-u64 _ v.window_seq_word)
            (search (sticky_rules, sources-IsSticky) depth 60 fits 20000)
            (Reads-field _ (Reads-u32 _ v.estimator_mode_word)
              (search (sticky_rules, sources-IsSticky) depth 60 fits 20000)
              (Reads-field _ (Reads-u32 _ v.state_dim_word)
                (search (sticky_rules, sources-IsSticky) depth 60 fits 20000)
                (Reads-guard _ hd (search (sticky_rules, sources-IsSticky) depth 60 fits 20000) (
                  Reads-field _
                    (Reads-f64_array k.state_dim k.state_mean (ground (arith, v.state_mean_length))
                      v.state_mean_words)
                    (search (sticky_rules, sources-IsSticky) depth 60 fits 20000)
                    (Reads-field _
                      (Reads-f64_array (k.state_dim * k.state_dim) k.state_covariance
                        (omega (arith, square-le k.state_dim hd, v.state_covariance_length))
                        v.state_covariance_words)
                      (search (sticky_rules, sources-IsSticky) depth 60 fits 20000)
                      (Reads-field _ (Reads-u32 _ v.calibration_version_word)
                        (search (sticky_rules, sources-IsSticky) depth 60 fits 20000)
                        (Reads-field _ (Reads-u32 _ v.policy_version_word)
                          (search (sticky_rules, sources-IsSticky) depth 60 fits 20000)
                          (Reads-field _ (Reads-u32 _ v.dgt_action_id_word)
                            (search (sticky_rules, sources-IsSticky) depth 60 fits 20000)
                            (Reads-field _ (Reads-u32 _ v.source_count_word)
                              (search (sticky_rules, sources-IsSticky) depth 60 fits 20000)
                              (Reads-guard _ hs
                                (search (sticky_rules, sources-IsSticky) depth 60 fits 20000)
                                (Reads-field _
                                  (sources-Reads _ _ (ground (arith, v.sources_length))
                                    v.sources_words)
                                  (search (sticky_rules, sources-IsSticky) depth 60 fits 20000)
                                  (Reads-field _ (Reads-i64 _ v.created_at_word)
                                    (search (sticky_rules, sources-IsSticky) depth 60 fits 20000)
                                    (Reads-end _))))))))))))))))

-- A checkpoint is encoded as its wire format if that fits the buffer. Else the buffer is reported as
-- too small, and before that a count that its array cannot hold as malformed.
pub encode_checkpoint_lem :
    (k : Checkpoint) (out_cap : ℕ)
    → out_cap < 2 ^ 32
    → encode_checkpoint k out_cap ≡ (
        if too_many_states k
        then err wire_malformed
        else if leb (length (checkpoint_layout k)) out_cap
        then ok (checkpoint_layout k)
        else err buffer_too_small)
unfolding encode_checkpoint
encode_checkpoint_lem k out_cap word =
    ap (λ (x : Result (List ℕ)). if too_many_states k then err wire_malformed else x)
      (encode_with-Writes buffer_too_small out_cap _ _ (checkpoint_writers-Writes k) word)

encode_checkpoint-ok :
    (k : Checkpoint) (out_cap : ℕ) (bs : List ℕ)
    → encode_checkpoint k out_cap ≡ ok bs
    → (ltb max_state_dim k.state_dim ≡ false)
      × (ltb max_tracked_sources k.source_count ≡ false)
      × (encode_with buffer_too_small out_cap (checkpoint_writers k) ≡ ok bs)
unfolding encode_checkpoint
encode_checkpoint-ok k out_cap bs done = ground arith

module _ (k : Checkpoint) (out_cap : ℕ) (v : IsCheckpoint k) (word : out_cap < 2 ^ 32) (bs : List ℕ)
    (done : encode_checkpoint k out_cap ≡ ok bs) where
  -- Decoding an encoded checkpoint gives it back, with this host's struct size and blank slots behind
  -- the counts, whatever bytes follow.
  pub decode-encode_checkpoint :
      (post : List ℕ)
      → length (bs ++ post) < 2 ^ 32
      → decode_checkpoint (bs ++ post) ≡ ok (received_checkpoint k)
  unfolding decode_checkpoint
  decode-encode_checkpoint post h =
      let (hd, hs, plain) = encode_checkpoint-ok k out_cap bs done in
      RoundTrip.decode-encode _ out_cap _ _ _ (received_checkpoint k) (checkpoint_writers-Writes k)
        (checkpoint_reader-Reads k v hd hs) word bs plain post h

  -- Every proper prefix of an encoded checkpoint is refused as malformed.
  pub decode_checkpoint_cut :
      (s t : List ℕ) (x : ℕ) → bs ≡ s ++ (x ∷ t) → decode_checkpoint s ≡ err wire_malformed
  unfolding decode_checkpoint
  decode_checkpoint_cut s t x e =
      let (hd, hs, plain) = encode_checkpoint-ok k out_cap bs done in
      RoundTrip.decode_cut _ out_cap _ _ _ (received_checkpoint k) (checkpoint_writers-Writes k)
        (checkpoint_reader-Reads k v hd hs) word bs plain s x t e
