-- ===== src/Wire/Control/ReadinessReport.antt =====
-- include/obicall/wire.h and src/core/wire.c: the readiness_report message and its codec.
use obicall.Common.{ℕ, ◌≡◌, List, [], ◌∷◌, length}
use obicall.Cursor.Octets.{octets}
use obicall.Cursor.Write.{Writer, wc_u32, wc_u64, wc_bytes, block, encode_with}
use obicall.Cursor.Read.{Reader, ◌>>=◌, pure, rc_u32, rc_u64, rc_bytes, decode_with}
use obicall.Cursor.Writes.{Writes, fields, writes_rules}
use obicall.Cursor.Reads.{Reads}
use obicall.Cursor.Codec.{reads_rules, IsWord}
use obicall.Status.{Result, buffer_too_small}

pub record ReadinessReport : Type 0 where
  pub broker_id : ℕ
  pub config_digest : List ℕ
  pub checkpoint_schema_version : ℕ
  pub last_processed_window_seq : ℕ
  pub healthy : ℕ

-- Every field holds a value of its C type.
pub record IsReadinessReport (m : ReadinessReport) : Type 0 where
  pub broker_id_word : IsWord 32 m.broker_id
  pub config_digest_length : length m.config_digest ≡ 32
  pub checkpoint_schema_version_word : IsWord 32 m.checkpoint_schema_version
  pub last_processed_window_seq_word : IsWord 64 m.last_processed_window_seq
  pub healthy_word : IsWord 32 m.healthy

pub readiness_report_writers : ReadinessReport → List Writer
readiness_report_writers m =
    wc_u32 m.broker_id
    ∷ wc_bytes m.config_digest
    ∷ wc_u32 m.checkpoint_schema_version
    ∷ wc_u64 m.last_processed_window_seq
    ∷ wc_u32 m.healthy
    ∷ []

unfoldable pub encode_readiness_report : ReadinessReport → ℕ → Result (List ℕ)
encode_readiness_report m out_cap =
    encode_with buffer_too_small out_cap (readiness_report_writers m)

pub readiness_report_reader : Reader ReadinessReport
readiness_report_reader = do
  broker_id ← rc_u32
  config_digest ← rc_bytes 32
  checkpoint_schema_version ← rc_u32
  last_processed_window_seq ← rc_u64
  healthy ← rc_u32
  pure (record {
    broker_id = broker_id;
    config_digest = config_digest;
    checkpoint_schema_version = checkpoint_schema_version;
    last_processed_window_seq = last_processed_window_seq;
    healthy = healthy;
  })

unfoldable pub decode_readiness_report : List ℕ → Result ReadinessReport
decode_readiness_report input = decode_with readiness_report_reader input

-- The wire format.
pub readiness_report_layout : ReadinessReport → List ℕ
readiness_report_layout m = fields (
    octets 4 m.broker_id
    ∷ m.config_digest
    ∷ octets 4 m.checkpoint_schema_version
    ∷ octets 8 m.last_processed_window_seq
    ∷ octets 4 m.healthy
    ∷ [])

pub readiness_report_writers-Writes :
    (m : ReadinessReport) → Writes (block (readiness_report_writers m)) (readiness_report_layout m)
unfolding readiness_report_writers readiness_report_layout
readiness_report_writers-Writes m = search writes_rules depth 40

pub readiness_report_reader-Reads :
    (m : ReadinessReport)
    → IsReadinessReport m
    → Reads readiness_report_reader (readiness_report_layout m) m
unfolding readiness_report_reader readiness_report_layout
readiness_report_reader-Reads m v =
    search
      (
        reads_rules, v.broker_id_word, v.config_digest_length, v.checkpoint_schema_version_word,
        v.last_processed_window_seq_word, v.healthy_word,
      )
      depth 40
