-- ===== src/Wire/Control/StatusReply.antt =====
-- include/obicall/wire.h and src/core/wire.c: the status_reply message and its codec.
use obicall.Common.{ℕ, List, [], ◌∷◌, ℤ, IsSigned, to_unsigned}
use obicall.Cursor.Octets.{octets}
use obicall.Cursor.Write.{Writer, wc_u32, wc_u64, wc_i64, block, encode_with}
use obicall.Cursor.Read.{Reader, ◌>>=◌, pure, rc_u32, rc_u64, rc_i64, decode_with}
use obicall.Cursor.Writes.{Writes, fields, writes_rules}
use obicall.Cursor.Reads.{Reads}
use obicall.Cursor.Codec.{reads_rules, IsWord}
use obicall.Status.{Result, buffer_too_small}

pub record StatusReply : Type 0 where
  pub running : ℕ
  pub gate_epoch : ℕ
  pub owner_broker_id : ℕ
  pub last_committed_window_seq : ℕ
  pub uptime_ns : ℤ

-- Every field holds a value of its C type.
pub record IsStatusReply (m : StatusReply) : Type 0 where
  pub running_word : IsWord 32 m.running
  pub gate_epoch_word : IsWord 64 m.gate_epoch
  pub owner_broker_id_word : IsWord 32 m.owner_broker_id
  pub last_committed_window_seq_word : IsWord 64 m.last_committed_window_seq
  pub uptime_ns_word : IsSigned 63 m.uptime_ns

pub status_reply_writers : StatusReply → List Writer
status_reply_writers m =
    wc_u32 m.running
    ∷ wc_u64 m.gate_epoch
    ∷ wc_u32 m.owner_broker_id
    ∷ wc_u64 m.last_committed_window_seq
    ∷ wc_i64 m.uptime_ns
    ∷ []

unfoldable pub encode_status_reply : StatusReply → ℕ → Result (List ℕ)
encode_status_reply m out_cap = encode_with buffer_too_small out_cap (status_reply_writers m)

pub status_reply_reader : Reader StatusReply
status_reply_reader = do
  running ← rc_u32
  gate_epoch ← rc_u64
  owner_broker_id ← rc_u32
  last_committed_window_seq ← rc_u64
  uptime_ns ← rc_i64
  pure (record {
    running = running;
    gate_epoch = gate_epoch;
    owner_broker_id = owner_broker_id;
    last_committed_window_seq = last_committed_window_seq;
    uptime_ns = uptime_ns;
  })

unfoldable pub decode_status_reply : List ℕ → Result StatusReply
decode_status_reply input = decode_with status_reply_reader input

-- The wire format.
pub status_reply_layout : StatusReply → List ℕ
status_reply_layout m = fields (
    octets 4 m.running
    ∷ octets 8 m.gate_epoch
    ∷ octets 4 m.owner_broker_id
    ∷ octets 8 m.last_committed_window_seq
    ∷ octets 8 (to_unsigned 63 m.uptime_ns)
    ∷ [])

pub status_reply_writers-Writes :
    (m : StatusReply) → Writes (block (status_reply_writers m)) (status_reply_layout m)
unfolding status_reply_writers status_reply_layout
status_reply_writers-Writes m = search writes_rules depth 40

pub status_reply_reader-Reads :
    (m : StatusReply) → IsStatusReply m → Reads status_reply_reader (status_reply_layout m) m
unfolding status_reply_reader status_reply_layout
status_reply_reader-Reads m v =
    search
      (
        reads_rules, v.running_word, v.gate_epoch_word, v.owner_broker_id_word,
        v.last_committed_window_seq_word, v.uptime_ns_word,
      )
      depth 40
