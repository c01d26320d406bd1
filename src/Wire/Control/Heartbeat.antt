-- ===== src/Wire/Control/Heartbeat.antt =====
-- include/obicall/wire.h and src/core/wire.c: the heartbeat message and its codec.
use obicall.Common.{ℕ, ◌≡◌, List, [], ◌∷◌, length, ℤ, IsSigned, to_unsigned}
use obicall.Cursor.Octets.{octets}
use obicall.Cursor.Write.{Writer, wc_u32, wc_u64, wc_i64, wc_bytes, block, encode_with}
use obicall.Cursor.Read.{Reader, ◌>>=◌, pure, rc_u32, rc_u64, rc_i64, rc_bytes, decode_with}
use obicall.Cursor.Writes.{Writes, fields, writes_rules}
use obicall.Cursor.Reads.{Reads}
use obicall.Cursor.Codec.{reads_rules, IsWord}
use obicall.Status.{Result, buffer_too_small}

pub record Heartbeat : Type 0 where
  pub broker_id : ℕ
  pub epoch : ℕ
  pub last_window_seq : ℕ
  pub config_digest : List ℕ
  pub checkpoint_schema_version : ℕ
  pub healthy : ℕ
  pub sent_at_ns : ℤ

-- Every field holds a value of its C type.
pub record IsHeartbeat (m : Heartbeat) : Type 0 where
  pub broker_id_word : IsWord 32 m.broker_id
  pub epoch_word : IsWord 64 m.epoch
  pub last_window_seq_word : IsWord 64 m.last_window_seq
  pub config_digest_length : length m.config_digest ≡ 32
  pub checkpoint_schema_version_word : IsWord 32 m.checkpoint_schema_version
  pub healthy_word : IsWord 32 m.healthy
  pub sent_at_ns_word : IsSigned 63 m.sent_at_ns

pub heartbeat_writers : Heartbeat → List Writer
heartbeat_writers m =
    wc_u32 m.broker_id
    ∷ wc_u64 m.epoch
    ∷ wc_u64 m.last_window_seq
    ∷ wc_bytes m.config_digest
    ∷ wc_u32 m.checkpoint_schema_version
    ∷ wc_u32 m.healthy
    ∷ wc_i64 m.sent_at_ns
    ∷ []

unfoldable pub encode_heartbeat : Heartbeat → ℕ → Result (List ℕ)
encode_heartbeat m out_cap = encode_with buffer_too_small out_cap (heartbeat_writers m)

pub heartbeat_reader : Reader Heartbeat
heartbeat_reader = do
  broker_id ← rc_u32
  epoch ← rc_u64
  last_window_seq ← rc_u64
  config_digest ← rc_bytes 32
  checkpoint_schema_version ← rc_u32
  healthy ← rc_u32
  sent_at_ns ← rc_i64
  pure (record {
    broker_id = broker_id;
    epoch = epoch;
    last_window_seq = last_window_seq;
    config_digest = config_digest;
    checkpoint_schema_version = checkpoint_schema_version;
    healthy = healthy;
    sent_at_ns = sent_at_ns;
  })

unfoldable pub decode_heartbeat : List ℕ → Result Heartbeat
decode_heartbeat input = decode_with heartbeat_reader input

-- The wire format.
unfoldable pub heartbeat_layout : Heartbeat → List ℕ
heartbeat_layout m = fields (
    octets 4 m.broker_id
    ∷ octets 8 m.epoch
    ∷ octets 8 m.last_window_seq
    ∷ m.config_digest
    ∷ octets 4 m.checkpoint_schema_version
    ∷ octets 4 m.healthy
    ∷ octets 8 (to_unsigned 63 m.sent_at_ns)
    ∷ [])

pub heartbeat_writers-Writes :
    (m : Heartbeat) → Writes (block (heartbeat_writers m)) (heartbeat_layout m)
unfolding heartbeat_writers heartbeat_layout
heartbeat_writers-Writes m = search writes_rules depth 40

pub heartbeat_reader-Reads :
    (m : Heartbeat) → IsHeartbeat m → Reads heartbeat_reader (heartbeat_layout m) m
unfolding heartbeat_reader heartbeat_layout
heartbeat_reader-Reads m v =
    search
      (
        reads_rules, v.broker_id_word, v.epoch_word, v.last_window_seq_word, v.config_digest_length,
        v.checkpoint_schema_version_word, v.healthy_word, v.sent_at_ns_word,
      )
      depth 40
