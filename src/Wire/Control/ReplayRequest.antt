-- ===== src/Wire/Control/ReplayRequest.antt =====
-- include/obicall/wire.h and src/core/wire.c: the replay_request message and its codec.
use obicall.Common.{ℕ, ◌≡◌, List, [], ◌∷◌, length}
use obicall.Cursor.Octets.{octets}
use obicall.Cursor.Write.{Writer, wc_u64, wc_fixed, block, encode_with}
use obicall.Cursor.Read.{Reader, ◌>>=◌, pure, rc_u64, rc_fixed, decode_with}
use obicall.Cursor.Writes.{Writes, fields, writes_rules}
use obicall.Cursor.Reads.{Reads}
use obicall.Cursor.Codec.{reads_rules, IsWord}
use obicall.Status.{Result, buffer_too_small}

pub record ReplayRequest : Type 0 where
  pub pipeline_id : List ℕ
  pub from_window_seq : ℕ

-- Every field holds a value of its C type.
pub record IsReplayRequest (m : ReplayRequest) : Type 0 where
  pub pipeline_id_length : length m.pipeline_id ≡ 32
  pub from_window_seq_word : IsWord 64 m.from_window_seq

pub replay_request_writers : ReplayRequest → List Writer
replay_request_writers m = wc_fixed m.pipeline_id ∷ wc_u64 m.from_window_seq ∷ []

unfoldable pub encode_replay_request : ReplayRequest → ℕ → Result (List ℕ)
encode_replay_request m out_cap = encode_with buffer_too_small out_cap (replay_request_writers m)

pub replay_request_reader : Reader ReplayRequest
replay_request_reader = do
  pipeline_id ← rc_fixed 32
  from_window_seq ← rc_u64
  pure (record { pipeline_id = pipeline_id; from_window_seq = from_window_seq })

unfoldable pub decode_replay_request : List ℕ → Result ReplayRequest
decode_replay_request input = decode_with replay_request_reader input

-- The wire format.
pub replay_request_layout : ReplayRequest → List ℕ
replay_request_layout m = fields (m.pipeline_id ∷ octets 8 m.from_window_seq ∷ [])

pub replay_request_writers-Writes :
    (m : ReplayRequest) → Writes (block (replay_request_writers m)) (replay_request_layout m)
unfolding replay_request_writers replay_request_layout
replay_request_writers-Writes m = search writes_rules depth 40

pub replay_request_reader-Reads :
    (m : ReplayRequest)
    → IsReplayRequest m
    → Reads replay_request_reader (replay_request_layout m) m
unfolding replay_request_reader replay_request_layout
replay_request_reader-Reads m v =
    search (reads_rules, v.pipeline_id_length, v.from_window_seq_word) depth 40
