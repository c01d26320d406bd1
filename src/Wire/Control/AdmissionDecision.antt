-- ===== src/Wire/Control/AdmissionDecision.antt =====
-- include/obicall/wire.h and src/core/wire.c: the admission_decision message and its codec.
use obicall.Common.{ℕ, ◌≡◌, List, [], ◌∷◌, length, ℤ, IsSigned, to_unsigned}
use obicall.Cursor.Octets.{octets}
use obicall.Cursor.Write.{Writer, wc_u32, wc_u64, wc_i64, wc_fixed, block, encode_with}
use obicall.Cursor.Read.{Reader, ◌>>=◌, pure, rc_u32, rc_u64, rc_i64, rc_fixed, decode_with}
use obicall.Cursor.Writes.{Writes, fields, writes_rules}
use obicall.Cursor.Reads.{Reads}
use obicall.Cursor.Codec.{reads_rules, IsWord}
use obicall.Status.{Result, buffer_too_small}

pub record AdmissionDecision : Type 0 where
  pub pipeline_id : List ℕ
  pub window_seq : ℕ
  pub sensor_id : List ℕ
  pub sequence : ℕ
  pub admitted : ℕ
  pub reason_code : ℕ
  pub decided_at_ns : ℤ

-- Every field holds a value of its C type.
pub record IsAdmissionDecision (m : AdmissionDecision) : Type 0 where
  pub pipeline_id_length : length m.pipeline_id ≡ 32
  pub window_seq_word : IsWord 64 m.window_seq
  pub sensor_id_length : length m.sensor_id ≡ 32
  pub sequence_word : IsWord 64 m.sequence
  pub admitted_word : IsWord 32 m.admitted
  pub reason_code_word : IsWord 32 m.reason_code
  pub decided_at_ns_word : IsSigned 63 m.decided_at_ns

pub admission_decision_writers : AdmissionDecision → List Writer
admission_decision_writers m =
    wc_fixed m.pipeline_id
    ∷ wc_u64 m.window_seq
    ∷ wc_fixed m.sensor_id
    ∷ wc_u64 m.sequence
    ∷ wc_u32 m.admitted
    ∷ wc_u32 m.reason_code
    ∷ wc_i64 m.decided_at_ns
    ∷ []

unfoldable pub encode_admission_decision : AdmissionDecision → ℕ → Result (List ℕ)
encode_admission_decision m out_cap =
    encode_with buffer_too_small out_cap (admission_decision_writers m)

pub admission_decision_reader : Reader AdmissionDecision
admission_decision_reader = do
  pipeline_id ← rc_fixed 32
  window_seq ← rc_u64
  sensor_id ← rc_fixed 32
  sequence ← rc_u64
  admitted ← rc_u32
  reason_code ← rc_u32
  decided_at_ns ← rc_i64
  pure (record {
    pipeline_id = pipeline_id;
    window_seq = window_seq;
    sensor_id = sensor_id;
    sequence = sequence;
    admitted = admitted;
    reason_code = reason_code;
    decided_at_ns = decided_at_ns;
  })

unfoldable pub decode_admission_decision : List ℕ → Result AdmissionDecision
decode_admission_decision input = decode_with admission_decision_reader input

-- The wire format.
pub admission_decision_layout : AdmissionDecision → List ℕ
admission_decision_layout m = fields (
    m.pipeline_id
    ∷ octets 8 m.window_seq
    ∷ m.sensor_id
    ∷ octets 8 m.sequence
    ∷ octets 4 m.admitted
    ∷ octets 4 m.reason_code
    ∷ octets 8 (to_unsigned 63 m.decided_at_ns)
    ∷ [])

pub admission_decision_writers-Writes :
    (m : AdmissionDecision)
    → Writes (block (admission_decision_writers m)) (admission_decision_layout m)
unfolding admission_decision_writers admission_decision_layout
admission_decision_writers-Writes m = search writes_rules depth 40

pub admission_decision_reader-Reads :
    (m : AdmissionDecision)
    → IsAdmissionDecision m
    → Reads admission_decision_reader (admission_decision_layout m) m
unfolding admission_decision_reader admission_decision_layout
admission_decision_reader-Reads m v =
    search
      (
        reads_rules, v.pipeline_id_length, v.window_seq_word, v.sensor_id_length, v.sequence_word,
        v.admitted_word, v.reason_code_word, v.decided_at_ns_word,
      )
      depth 40
