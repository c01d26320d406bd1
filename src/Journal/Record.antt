-- ===== src/Journal/Record.antt =====
-- include/obicall/journal.h and src/core/journal.c: the records of the journal's file.
use obicall.Common.{
  ℕ, ◌+◌, ◌%◌, ◌^◌, not, ◌&&◌, ◌||◌, List, [], ◌∷◌, ◌++◌, ltb, ◌==◌, if◌then◌else◌, length, take,
  drop, ℤ,
}
use obicall.Common.Device.{Device}
use obicall.Cursor.Write.{Writer, wc_u32, wc_u64, wc_i64, encode_with}
use obicall.Cursor.Read.{Reader, ◌>>=◌, pure, rc_u32, rc_u64, rc_i64, decode_with}
use obicall.Digest.Crc32.{crc32}
use obicall.Journal.Admit.{
  AdmissionReason, admit_ok, reject_validation, reject_duplicate, reject_late, reject_overflow,
  reject_sequence_regression,
}
use obicall.Observation.{Observation}
use obicall.Status.{Result, ok, err, not_found, wire_malformed, wire_too_large, wire_checksum, io}
use obicall.Wire.Observation.{encode_observation, decode_observation}

abbrev pub record_magic : ℕ
record_magic = 0x4A4F5242

abbrev pub record_header_len : ℕ
record_header_len = 40

abbrev pub max_record_obs_len : ℕ
max_record_obs_len = 4096

pub record RecordHeader : Type 0 where
  pub magic : ℕ
  pub record_len : ℕ
  pub observation_len : ℕ
  pub crc32 : ℕ
  pub window_seq : ℕ
  pub admitted_at_ns : ℤ
  pub admission_reason : ℕ
  pub reserved : ℕ

unfoldable pub record_header_writers : RecordHeader → List Writer
record_header_writers hdr =
    wc_u32 hdr.magic
    ∷ wc_u32 hdr.record_len
    ∷ wc_u32 hdr.observation_len
    ∷ wc_u32 hdr.crc32
    ∷ wc_u64 hdr.window_seq
    ∷ wc_i64 hdr.admitted_at_ns
    ∷ wc_u32 hdr.admission_reason
    ∷ wc_u32 hdr.reserved
    ∷ []

-- `out` is an array of `OBICALL_JOURNAL_RECORD_HEADER_LEN` bytes.
unfoldable pub encode_record_header : RecordHeader → Result (List ℕ)
encode_record_header hdr = encode_with wire_malformed record_header_len (record_header_writers hdr)

unfoldable pub record_header_reader : Reader RecordHeader
record_header_reader = do
  magic ← rc_u32
  record_len ← rc_u32
  observation_len ← rc_u32
  crc ← rc_u32
  window_seq ← rc_u64
  admitted_at_ns ← rc_i64
  admission_reason ← rc_u32
  reserved ← rc_u32
  pure (record {
    magic = magic;
    record_len = record_len;
    observation_len = observation_len;
    crc32 = crc;
    window_seq = window_seq;
    admitted_at_ns = admitted_at_ns;
    admission_reason = admission_reason;
    reserved = reserved;
  })

unfoldable pub decode_record_header : List ℕ → Result RecordHeader
decode_record_header input = decode_with record_header_reader input

abbrev pub reason_code : AdmissionReason → ℕ
reason_code admit_ok = 0
reason_code reject_validation = 1
reason_code reject_duplicate = 2
reason_code reject_late = 3
reason_code reject_overflow = 4
reason_code reject_sequence_regression = 5

-- The header in front of an encoded observation.
abbrev pub header_for : ℕ → ℤ → AdmissionReason → List ℕ → RecordHeader
header_for window_seq admitted_at_ns reason obs_buf = record {
  magic = record_magic;
  record_len = (record_header_len + length obs_buf) % 2 ^ 32;
  observation_len = length obs_buf;
  crc32 = crc32 obs_buf;
  window_seq = window_seq;
  admitted_at_ns = admitted_at_ns;
  admission_reason = reason_code reason;
  reserved = 0;
}

-- The writes to the file: what they append, if all succeed.
abbrev pub append_bytes : Device → List ℕ → Result (List ℕ) → Result (List ℕ)
append_bytes device obs_buf (err e) = err e
append_bytes device obs_buf (ok hdr_buf) =
    if not device.header_written
    then err io
    else if ltb 0 (length obs_buf) && not device.payload_written
    then err io
    else if not device.flushed
    then err io
    else if not device.synced
    then err io
    else ok (hdr_buf ++ obs_buf)

abbrev pub append_encoded : Device → ℕ → ℤ → AdmissionReason → Result (List ℕ) → Result (List ℕ)
append_encoded device window_seq admitted_at_ns reason (err e) = err e
append_encoded device window_seq admitted_at_ns reason (ok obs_buf) =
    append_bytes device obs_buf
      (encode_record_header (header_for window_seq admitted_at_ns reason obs_buf))

unfoldable pub append_record : Device → ℕ → ℤ → AdmissionReason → Observation → Result (List ℕ)
append_record device window_seq admitted_at_ns reason obs =
    append_encoded device window_seq admitted_at_ns reason
      (encode_observation obs max_record_obs_len)

-- A record that was read, or a status, and what the file holds from its position on.
abbrev pub ReadResult : Type 0
ReadResult = Result (RecordHeader × Observation) × List ℕ

abbrev pub read_decoded : List ℕ → RecordHeader → List ℕ → Result Observation → ReadResult
read_decoded file hdr behind (err e) = (err e, file)
read_decoded file hdr behind (ok obs) = (ok (hdr, obs), behind)

abbrev pub read_observation : List ℕ → RecordHeader → List ℕ → ReadResult
read_observation file hdr rest =
    if ltb (length rest) hdr.observation_len
    then (err wire_malformed, file)
    else if not (crc32 (take hdr.observation_len rest) == hdr.crc32)
    then (err wire_checksum, file)
    else read_decoded file hdr (drop hdr.observation_len rest)
        (decode_observation (take hdr.observation_len rest))

abbrev pub read_header : List ℕ → List ℕ → Result RecordHeader → ReadResult
read_header file rest (err e) = (err wire_malformed, file)
read_header file rest (ok hdr) =
    if not (hdr.magic == record_magic)
    then (err wire_malformed, file)
    else if ltb max_record_obs_len hdr.observation_len
        || not (hdr.record_len == (record_header_len + hdr.observation_len) % 2 ^ 32)
    then (err wire_too_large, file)
    else read_observation file hdr rest

-- `file` is what the file holds from its position on. An error leaves the position where it was.
unfoldable pub read_record : List ℕ → ReadResult
read_record file =
    if length file == 0
    then (err not_found, file)
    else if ltb (length file) record_header_len
    then (err wire_malformed, file)
    else read_header file (drop record_header_len file)
        (decode_record_header (take record_header_len file))
