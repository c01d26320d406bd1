-- ===== src/Journal/Stored.antt =====
-- src/core/journal.c: what `obicall_journal_read_record` makes of an appended record, whole or damaged.
use obicall.Common.{
  ℕ, ◌+◌, ◌%◌, ◌^◌, ◌<◌, ◌≤◌, ◌≡◌, refl, sym, ap, ◌∙◌, inl, inr, true, false, not, ◌||◌, List, [],
  ◌∷◌, ◌++◌, append_assoc, append-nil, arith, ltb, ◌==◌, if◌then◌else◌, length, length-append, take,
  drop, append_cut, split_cases, ℤ, IsSigned,
}
use obicall.Common.Device.{Device}
use obicall.Cursor.Codec.{IsWord}
use obicall.Digest.Crc32.{crc32, crc32-lt}
use obicall.Journal.Admit.{AdmissionReason}
use obicall.Journal.Record.{
  record_header_len, max_record_obs_len, RecordHeader, decode_record_header, reason_code,
  header_for, append_record, read_decoded, read_observation, read_header, read_record,
}
use obicall.Observation.{Observation, IsObservation}
use obicall.Status.{ok, err, wire_malformed, wire_checksum, wire_too_large, not_found}
use obicall.Wire.Observation.{encode_observation, decode_observation, received}
use obicall.Wire.Observation.RoundTrip.{decode-encode_observation}
use obicall.Wire.Observation.Bytes.{encode_observation-bytes}
use obicall.Journal.Header.{
  record_header_layout, IsRecordHeader, length-record_header_layout, append_encoded-ok,
  reason_code-lt, read_record-header,
}

module _ (device : Device) (window_seq : ℕ) (admitted_at_ns : ℤ) (reason : AdmissionReason)
    (obs : Observation) (v : IsObservation obs) (window_word : IsWord 64 window_seq)
    (time_word : IsSigned 63 admitted_at_ns) (bytes : List ℕ)
    (done : append_record device window_seq admitted_at_ns reason obs ≡ ok bytes) where
  is_record :
      (obs_buf : List ℕ) × (decode_observation obs_buf ≡ ok (received obs))
      × (length obs_buf ≤ max_record_obs_len)
      × (crc32 obs_buf < 2 ^ 32)
      × (bytes
          ≡ record_header_layout (header_for window_seq admitted_at_ns reason obs_buf) ++ obs_buf)
  unfolding append_record
  is_record =
      let (obs_buf, enc, e) =
        append_encoded-ok device window_seq admitted_at_ns reason
          (encode_observation obs max_record_obs_len) bytes done in
      let (all_bytes, short) =
        encode_observation-bytes obs max_record_obs_len obs_buf v (omega arith) enc in
      let decoded =
        decode-encode_observation obs max_record_obs_len v (omega arith) obs_buf enc []
          (omega (arith, length-append obs_buf [])) in
      (
        obs_buf,
        ap decode_observation (sym (append-nil obs_buf)) ∙ decoded,
        short,
        crc32-lt obs_buf all_bytes,
        e,
      )

  -- The header that `read_record` returns.
  header_words :
      (obs_buf : List ℕ)
      → length obs_buf ≤ max_record_obs_len
      → crc32 obs_buf < 2 ^ 32
      → IsRecordHeader (header_for window_seq admitted_at_ns reason obs_buf)
  header_words obs_buf short word = record {
    magic_word = omega arith;
    record_len_word = omega arith;
    observation_len_word = omega arith;
    crc32_word = word;
    window_seq_word = window_word;
    admitted_at_word = time_word;
    admission_reason_word = reason_code-lt reason;
    reserved_word = omega arith;
  }

  -- The record in front of `rest` is read up to the tests of length and checksum.
  read_record-payload :
      (obs_buf rest : List ℕ)
      → length obs_buf ≤ max_record_obs_len
      → crc32 obs_buf < 2 ^ 32
      → let hdr = header_for window_seq admitted_at_ns reason obs_buf in
        read_record (record_header_layout hdr ++ rest)
        ≡ read_observation (record_header_layout hdr ++ rest) hdr rest
  read_record-payload obs_buf rest short word =
      let hdr = header_for window_seq admitted_at_ns reason obs_buf in
      let file = record_header_layout hdr ++ rest in
      let bounded : (ltb max_record_obs_len (length obs_buf)
            || not (hdr.record_len == (record_header_len + length obs_buf) % 2 ^ 32))
          ≡ false =
        ground arith in
      read_record-header hdr rest (header_words obs_buf short word)
      ∙ ap (λ b. if b then (err wire_too_large, file) else read_observation file hdr rest) bounded

  -- An appended record is read again: with its window, time and reason, the observation as a decoder
  -- gives it, and the position behind it, whatever follows in the file.
  pub read-append_record :
      (post : List ℕ)
      → (hdr : RecordHeader) × (read_record (bytes ++ post) ≡ (ok (hdr, received obs), post))
        × (hdr.window_seq ≡ window_seq)
        × (hdr.admitted_at_ns ≡ admitted_at_ns)
        × (hdr.admission_reason ≡ reason_code reason)
  read-append_record post =
      let (obs_buf, decoded, short, word, e) = is_record in
      let hdr = header_for window_seq admitted_at_ns reason obs_buf in
      let rest = obs_buf ++ post in
      let file = record_header_layout hdr ++ rest in
      let enough : ltb (length rest) (length obs_buf) ≡ false =
        ground (arith, length-append obs_buf post) in
      let (payload, behind) = append_cut (length obs_buf) obs_buf post refl in
      let same : (crc32 (take (length obs_buf) rest) == crc32 obs_buf) ≡ true =
        ground (arith, ap crc32 payload) in
      let after_check =
        read_decoded file hdr (drop (length obs_buf) rest)
          (decode_observation (take (length obs_buf) rest)) in
      (
        hdr,
        ap read_record
              (ap (λ f. f ++ post) e ∙ append_assoc (record_header_layout hdr) obs_buf post)
            ∙ read_record-payload obs_buf rest short word
            ∙ ap
                (λ b.
                  if b
                  then (err wire_malformed, file)
                  else if not (crc32 (take (length obs_buf) rest) == crc32 obs_buf)
                  then (err wire_checksum, file)
                  else after_check)
                enough
            ∙ ap (λ b. if not b then (err wire_checksum, file) else after_check) same
            ∙ ap (read_decoded file hdr (drop (length obs_buf) rest))
                (ap decode_observation payload ∙ decoded)
            ∙ ap (λ (r : List ℕ). (ok (hdr, received obs), r)) behind,
        refl,
        refl,
        refl,
      )

  -- An appended record that breaks off behind its first byte is refused as malformed, and the position
  -- stays at its start.
  pub read_record_cut :
      (first : ℕ) (s t : List ℕ) (x : ℕ)
      → bytes ≡ (first ∷ s) ++ (x ∷ t)
      → read_record (first ∷ s) ≡ (err wire_malformed, first ∷ s)
  unfolding read_record
  read_record_cut first s t x cut =
      let (obs_buf, decoded, short, word, e) = is_record in
      let hdr = header_for window_seq admitted_at_ns reason obs_buf in
      elim (split_cases (record_header_layout hdr) obs_buf (first ∷ s) t x (sym e ∙ cut)) [
        | inl (u, in_header) ↦
            let early : ltb (length (first ∷ s)) record_header_len ≡ true = ground (
              arith,
              ap length in_header,
              length-append (first ∷ s) (x ∷ u),
              length-record_header_layout hdr,
            ) in
            let begun : (length (first ∷ s) == 0) ≡ false = ground arith in
            ap
              (λ b.
                if b
                then (err not_found, first ∷ s)
                else if ltb (length (first ∷ s)) record_header_len
                then (err wire_malformed, first ∷ s)
                else read_header (first ∷ s) (drop record_header_len (first ∷ s))
                    (decode_record_header (take record_header_len (first ∷ s))))
              begun
            ∙ ap
                (λ b.
                  if b
                  then (err wire_malformed, first ∷ s)
                  else read_header (first ∷ s) (drop record_header_len (first ∷ s))
                      (decode_record_header (take record_header_len (first ∷ s))))
                early
        | inr (u, kept_is, rest_is) ↦
            let few : ltb (length u) (length obs_buf) ≡ true =
              ground (arith, ap length rest_is, length-append u (x ∷ t)) in
            let file = record_header_layout hdr ++ u in
            ap read_record kept_is
            ∙ read_record-payload obs_buf u short word
            ∙ ap
                (λ b.
                  if b
                  then (err wire_malformed, file)
                  else if not (crc32 (take (length obs_buf) u) == crc32 obs_buf)
                  then (err wire_checksum, file)
                  else read_decoded file hdr (drop (length obs_buf) u)
                      (decode_observation (take (length obs_buf) u)))
                few
            ∙ ap (λ (f : List ℕ). (err wire_malformed, f)) (sym kept_is)
      ]
