-- ===== src/Wire/Checkpoint/Tests.antt =====
-- Runs of the checkpoint codec.
use obicall.Common.{ℕ, ◌≡◌, refl, List, [], ◌++◌, arith, replicate, All-replicate, pos}
use obicall.Cursor.Octets.{octets}
use obicall.Cursor.Writes.{fields, each_field}
use obicall.Cursor.Codec.{IsWord}
use obicall.Checkpoint.{Checkpoint, IsCheckpoint, IsSourcePosition, blank_source, sizeof_checkpoint}
use obicall.Status.{ok}
use obicall.Wire.Checkpoint.{
  encode_checkpoint, decode_checkpoint, checkpoint_layout, source_layout, received_checkpoint,
}
use obicall.Wire.Checkpoint.RoundTrip.{encode_checkpoint_lem, decode-encode_checkpoint}

abbrev saved : Checkpoint
saved = record {
  struct_size = sizeof_checkpoint;
  schema_version = 1;
  pipeline_id = replicate 32 0x70;
  window_seq = 40;
  estimator_mode = 1;
  state_dim = 2;
  state_mean = replicate 6 0x3FF0000000000000;
  state_covariance = replicate 36 0x3FE0000000000000;
  calibration_version = 1;
  policy_version = 2;
  dgt_action_id = 3;
  source_count = 1;
  sources = replicate 16 blank_source;
  created_at_ns = pos 99;
}

saved-IsCheckpoint : IsCheckpoint saved
saved-IsCheckpoint = record {
  struct_size_word = omega arith;
  schema_version_word = omega arith;
  pipeline_id_length = refl;
  window_seq_word = omega arith;
  estimator_mode_word = omega arith;
  state_dim_word = omega arith;
  state_mean_length = refl;
  state_mean_words = All-replicate (IsWord 64) 6 _ (omega arith);
  state_covariance_length = refl;
  state_covariance_words = All-replicate (IsWord 64) 36 _ (omega arith);
  calibration_version_word = omega arith;
  policy_version_word = omega arith;
  dgt_action_id_word = omega arith;
  source_count_word = omega arith;
  sources_length = refl;
  sources_words = All-replicate IsSourcePosition 16 blank_source (record {
    sensor_id_length = refl;
    source_boot_id_word = omega arith;
    last_sequence_word = omega arith;
  });
  created_at_word = (omega arith, omega arith);
}

abbrev frame : List ℕ
frame = checkpoint_layout saved

saved-done : encode_checkpoint saved 2048 ≡ ok frame
unfolding checkpoint_layout source_layout fields octets each_field
saved-done = encode_checkpoint_lem saved 2048 (omega arith)

decode-encode_checkpoint_example : decode_checkpoint (frame ++ []) ≡ ok (received_checkpoint saved)
unfolding checkpoint_layout source_layout fields octets each_field
decode-encode_checkpoint_example =
    decode-encode_checkpoint saved 2048 saved-IsCheckpoint (omega arith) frame saved-done []
      (omega arith)
