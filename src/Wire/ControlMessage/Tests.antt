-- ===== src/Wire/ControlMessage/Tests.antt =====
-- Runs of the control codecs.
use obicall.Common.{◌≡◌, refl, List, [], ◌∷◌, ◌++◌, ℕ, arith, drop, replicate, pos}
use obicall.Cursor.Octets.{octets}
use obicall.Cursor.Writes.{fields}
use obicall.Status.{ok, err, wire_malformed, buffer_too_small}
use obicall.Wire.Control.Heartbeat.{heartbeat_layout}
use obicall.Wire.ControlMessage.{
  ControlMessage, heartbeat, kind_of, IsControl, encode_control, decode_control, control_layout,
}
use obicall.Wire.ControlMessage.RoundTrip.{
  encode_control_lem, decode-encode_control, decode_control_cut,
}

abbrev beat : ControlMessage
beat = heartbeat (record {
  broker_id = 2;
  epoch = 3;
  last_window_seq = 12;
  config_digest = replicate 32 7;
  checkpoint_schema_version = 1;
  healthy = 1;
  sent_at_ns = pos 5000;
})

beat-IsControl : IsControl beat
beat-IsControl = record {
  broker_id_word = omega arith;
  epoch_word = omega arith;
  last_window_seq_word = omega arith;
  config_digest_length = refl;
  checkpoint_schema_version_word = omega arith;
  healthy_word = omega arith;
  sent_at_ns_word = (omega arith, omega arith);
}

abbrev frame : List ℕ
frame = control_layout beat

beat-done : encode_control beat 256 ≡ ok frame
unfolding control_layout heartbeat_layout fields octets
beat-done = encode_control_lem beat 256 (omega arith)

encode_control_lem_example : encode_control beat 10 ≡ err buffer_too_small
unfolding control_layout heartbeat_layout fields octets
encode_control_lem_example = encode_control_lem beat 10 (omega arith)

decode-encode_control_example : decode_control (kind_of beat) (frame ++ (1 ∷ [])) ≡ ok beat
unfolding control_layout heartbeat_layout fields octets
decode-encode_control_example =
    decode-encode_control beat 256 beat-IsControl (omega arith) frame (1 ∷ []) beat-done
      (omega arith)

decode_control_cut_example : decode_control (kind_of beat) (2 ∷ 0 ∷ 0 ∷ []) ≡ err wire_malformed
unfolding control_layout heartbeat_layout fields octets
decode_control_cut_example =
    decode_control_cut beat 256 beat-IsControl (omega arith) frame (2 ∷ 0 ∷ 0 ∷ []) (drop 4 frame) 0
      beat-done refl
