-- ===== src/Wire/FusionResult/Tests.antt =====
-- Runs of the fusion result codec.
use obicall.Common.{◌≡◌, refl, List, [], ◌∷◌, ◌++◌, ℕ, arith, drop}
use obicall.Cursor.Octets.{octets}
use obicall.Cursor.Writes.{fields, each_field}
use obicall.FusionResult.Sample.{track, track-IsFusionResult}
use obicall.Status.{ok, err, wire_malformed}
use obicall.Wire.FusionResult.{encode_result, decode_result, result_layout, received_result}
use obicall.Wire.FusionResult.RoundTrip.{encode_result_lem, decode-encode_result, decode_result_cut}

abbrev frame : List ℕ
frame = result_layout track

track-done : encode_result track 1024 ≡ ok frame
unfolding result_layout fields octets each_field
track-done = encode_result_lem track 1024 (omega arith)

decode-encode_result_example : decode_result (frame ++ []) ≡ ok (received_result track)
unfolding result_layout fields octets each_field
decode-encode_result_example =
    decode-encode_result track 1024 track-IsFusionResult (omega arith) frame track-done []
      (omega arith)

decode_result_cut_example : decode_result (0 ∷ 3 ∷ 0 ∷ []) ≡ err wire_malformed
unfolding result_layout fields octets each_field
decode_result_cut_example =
    decode_result_cut track 1024 track-IsFusionResult (omega arith) frame track-done
      (0 ∷ 3 ∷ 0 ∷ []) (drop 4 frame) 0 refl
