-- ===== src/Wire/Control/ResultAck.antt =====
-- include/obicall/wire.h and src/core/wire.c: the result_ack message and its codec.
use obicall.Common.{ℕ, ◌≡◌, List, [], ◌∷◌, length, ℤ, IsSigned, to_unsigned}
use obicall.Cursor.Octets.{octets}
use obicall.Cursor.Write.{Writer, wc_u32, wc_u64, wc_i32, wc_fixed, block, encode_with}
use obicall.Cursor.Read.{Reader, ◌>>=◌, pure, rc_u32, rc_u64, rc_i32, rc_fixed, decode_with}
use obicall.Cursor.Writes.{Writes, fields, writes_rules}
use obicall.Cursor.Reads.{Reads}
use obicall.Cursor.Codec.{reads_rules, IsWord}
use obicall.Status.{Result, buffer_too_small}

pub record ResultAck : Type 0 where
  pub pipeline_id : List ℕ
  pub window_seq : ℕ
  pub accepted : ℕ
  pub reject_status : ℤ

-- Every field holds a value of its C type.
pub record IsResultAck (m : ResultAck) : Type 0 where
  pub pipeline_id_length : length m.pipeline_id ≡ 32
  pub window_seq_word : IsWord 64 m.window_seq
  pub accepted_word : IsWord 32 m.accepted
  pub reject_status_word : IsSigned 31 m.reject_status

pub result_ack_writers : ResultAck → List Writer
result_ack_writers m =
    wc_fixed m.pipeline_id ∷ wc_u64 m.window_seq ∷ wc_u32 m.accepted ∷ wc_i32 m.reject_status ∷ []

unfoldable pub encode_result_ack : ResultAck → ℕ → Result (List ℕ)
encode_result_ack m out_cap = encode_with buffer_too_small out_cap (result_ack_writers m)

pub result_ack_reader : Reader ResultAck
result_ack_reader = do
  pipeline_id ← rc_fixed 32
  window_seq ← rc_u64
  accepted ← rc_u32
  reject_status ← rc_i32
  pure (record {
    pipeline_id = pipeline_id;
    window_seq = window_seq;
    accepted = accepted;
    reject_status = reject_status;
  })

unfoldable pub decode_result_ack : List ℕ → Result ResultAck
decode_result_ack input = decode_with result_ack_reader input

-- The wire format.
pub result_ack_layout : ResultAck → List ℕ
result_ack_layout m = fields (
    m.pipeline_id
    ∷ octets 8 m.window_seq
    ∷ octets 4 m.accepted
    ∷ octets 4 (to_unsigned 31 m.reject_status)
    ∷ [])

pub result_ack_writers-Writes :
    (m : ResultAck) → Writes (block (result_ack_writers m)) (result_ack_layout m)
unfolding result_ack_writers result_ack_layout
result_ack_writers-Writes m = search writes_rules depth 40

pub result_ack_reader-Reads :
    (m : ResultAck) → IsResultAck m → Reads result_ack_reader (result_ack_layout m) m
unfolding result_ack_reader result_ack_layout
result_ack_reader-Reads m v =
    search
      (reads_rules, v.pipeline_id_length, v.window_seq_word, v.accepted_word, v.reject_status_word)
      depth 40
