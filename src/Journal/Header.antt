-- ===== src/Journal/Header.antt =====
-- src/core/journal.c: the header in front of a stored observation.
use obicall.Common.{
  ℕ, ◌+◌, ◌^◌, ◌<◌, ◌≡◌, refl, sym, ap, ◌∙◌, false, List, [], ◌∷◌, ◌++◌, arith, ltb, leb, ◌==◌,
  if◌then◌else◌, length, length-append, take, drop, append_cut, ℤ, IsSigned, to_unsigned,
}
use obicall.Common.Device.{Device}
use obicall.Cursor.Octets.{octets}
use obicall.Cursor.Write.{block}
use obicall.Cursor.Writes.{Writes, fields, writes_rules, encode_with-Writes}
use obicall.Cursor.Reads.{Reads}
use obicall.Cursor.Codec.{IsWord, reads_rules, decode_with-whole}
use obicall.Journal.Admit.{AdmissionReason}
use obicall.Journal.Record.{
  record_header_len, max_record_obs_len, RecordHeader, record_header_writers, encode_record_header,
  record_header_reader, decode_record_header, reason_code, header_for, append_bytes, append_encoded,
  append_record, read_header, read_record,
}
use obicall.Observation.{Observation}
use obicall.Status.{Result, ok, err, wire_malformed, not_found}
use obicall.Wire.Observation.{encode_observation}

-- The header's bytes.
unfoldable pub record_header_layout : RecordHeader → List ℕ
record_header_layout hdr = fields (
    octets 4 hdr.magic
    ∷ octets 4 hdr.record_len
    ∷ octets 4 hdr.observation_len
    ∷ octets 4 hdr.crc32
    ∷ octets 8 hdr.window_seq
    ∷ octets 8 (to_unsigned 63 hdr.admitted_at_ns)
    ∷ octets 4 hdr.admission_reason
    ∷ octets 4 hdr.reserved
    ∷ [])

-- Every field holds a value of its C type.
pub record IsRecordHeader (hdr : RecordHeader) : Type 0 where
  pub magic_word : IsWord 32 hdr.magic
  pub record_len_word : IsWord 32 hdr.record_len
  pub observation_len_word : IsWord 32 hdr.observation_len
  pub crc32_word : IsWord 32 hdr.crc32
  pub window_seq_word : IsWord 64 hdr.window_seq
  pub admitted_at_word : IsSigned 63 hdr.admitted_at_ns
  pub admission_reason_word : IsWord 32 hdr.admission_reason
  pub reserved_word : IsWord 32 hdr.reserved

pub length-record_header_layout :
    (hdr : RecordHeader) → length (record_header_layout hdr) ≡ record_header_len
unfolding record_header_layout octets fields
length-record_header_layout hdr = refl

record_header_writers-Writes :
    (hdr : RecordHeader) → Writes (block (record_header_writers hdr)) (record_header_layout hdr)
unfolding record_header_writers record_header_layout
record_header_writers-Writes hdr = search writes_rules depth 40

record_header_reader-Reads :
    (hdr : RecordHeader)
    → IsRecordHeader hdr
    → Reads record_header_reader (record_header_layout hdr) hdr
unfolding record_header_reader record_header_layout
record_header_reader-Reads hdr v =
    search
      (
        reads_rules, v.magic_word, v.record_len_word, v.observation_len_word, v.crc32_word,
        v.window_seq_word, v.admitted_at_word, v.admission_reason_word, v.reserved_word,
      )
      depth 40

encode_record_header_lem :
    (hdr : RecordHeader) → encode_record_header hdr ≡ ok (record_header_layout hdr)
unfolding encode_record_header
encode_record_header_lem hdr =
    encode_with-Writes wire_malformed record_header_len _ _ (record_header_writers-Writes hdr)
      (omega arith)
    ∙ ap
        (λ (k : ℕ).
          if leb k record_header_len then ok (record_header_layout hdr) else err wire_malformed)
        (length-record_header_layout hdr)

decode_record_header_lem :
    (hdr : RecordHeader)
    → IsRecordHeader hdr
    → decode_record_header (record_header_layout hdr) ≡ ok hdr
unfolding decode_record_header
decode_record_header_lem hdr v =
    decode_with-whole record_header_reader (record_header_layout hdr) hdr
      (record_header_reader-Reads hdr v) (omega (arith, length-record_header_layout hdr))

-- What a successful append leaves in the file.
pub append_encoded-ok :
    (device : Device) (window_seq : ℕ) (admitted_at_ns : ℤ) (reason : AdmissionReason)
    (encoded : Result (List ℕ)) (bytes : List ℕ)
    → append_encoded device window_seq admitted_at_ns reason encoded ≡ ok bytes
    → (obs_buf : List ℕ) × (encoded ≡ ok obs_buf)
      × (bytes
          ≡ record_header_layout (header_for window_seq admitted_at_ns reason obs_buf) ++ obs_buf)
append_encoded-ok device window_seq admitted_at_ns reason (err e) bytes done = ground arith
append_encoded-ok device window_seq admitted_at_ns reason (ok obs_buf) bytes done =
    let hdr = header_for window_seq admitted_at_ns reason obs_buf in
    let written : append_bytes device obs_buf (ok (record_header_layout hdr)) ≡ ok bytes =
      ap (append_bytes device obs_buf) (sym (encode_record_header_lem hdr)) ∙ done in
    (obs_buf, refl, ground (arith, written))

-- An appended record is the header and the encoded observation, if the writes succeed.
pub append_record_lem :
    (device : Device) (window_seq : ℕ) (admitted_at_ns : ℤ) (reason : AdmissionReason)
    (obs : Observation) (obs_buf : List ℕ)
    → encode_observation obs max_record_obs_len ≡ ok obs_buf
    → append_record device window_seq admitted_at_ns reason obs
      ≡ append_bytes device obs_buf
          (ok (record_header_layout (header_for window_seq admitted_at_ns reason obs_buf)))
unfolding append_record
append_record_lem device window_seq admitted_at_ns reason obs obs_buf enc =
    ap (append_encoded device window_seq admitted_at_ns reason) enc
    ∙ ap (append_bytes device obs_buf)
        (encode_record_header_lem (header_for window_seq admitted_at_ns reason obs_buf))

pub reason_code-lt : (reason : AdmissionReason) → reason_code reason < 2 ^ 32
reason_code-lt reason = ground arith

-- A record whose header was read is read on to its observation.
pub read_record-header :
    (hdr : RecordHeader) (rest : List ℕ)
    → IsRecordHeader hdr
    → read_record (record_header_layout hdr ++ rest)
      ≡ read_header (record_header_layout hdr ++ rest) rest (ok hdr)
unfolding read_record
read_record-header hdr rest v =
    let layout = record_header_layout hdr in
    let file = layout ++ rest in
    let long : length file ≡ record_header_len + length rest =
      omega (arith, length-append layout rest, length-record_header_layout hdr) in
    let begun : (length file == 0) ≡ false = ground (arith, long) in
    let enough : ltb (length file) record_header_len ≡ false = ground (arith, long) in
    let (header, behind) =
      append_cut record_header_len layout rest (length-record_header_layout hdr) in
    let read : decode_record_header (take record_header_len file) ≡ ok hdr =
      ap decode_record_header header ∙ decode_record_header_lem hdr v in
    ap
      (λ b.
        if b
        then (err not_found, file)
        else if ltb (length file) record_header_len
        then (err wire_malformed, file)
        else read_header file (drop record_header_len file)
            (decode_record_header (take record_header_len file)))
      begun
    ∙ ap
        (λ b.
          if b
          then (err wire_malformed, file)
          else read_header file (drop record_header_len file)
              (decode_record_header (take record_header_len file)))
        enough
    ∙ ap (read_header file (drop record_header_len file)) read
    ∙ ap (λ (r : List ℕ). read_header file r (ok hdr)) behind
