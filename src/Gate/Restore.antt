-- ===== src/Gate/Restore.antt =====
-- src/core/gate.c: what `obicall_gate_load_state` makes of a stored state, whole or damaged.
use obicall.Gate.Persist.{
  persist_header_len, persist_max_payload, persist_state, persist_reader, load_payload, load_state,
  persist_layout,
}
use obicall.Common.{
  ℕ, ◌+◌, ◌^◌, ◌≤◌, ◌<◌, ◌≡◌, ◌≢◌, refl, sym, ap, subst, ◌∙◌, inl, inr, true, false, not, List, ◌∷◌,
  ◌++◌, append_assoc, arith, ltb, ◌==◌, if◌then◌else◌, Bool-cases, length, length-append, take,
  drop, split_cases, All,
}
use obicall.Common.Device.{Device}
use obicall.Cursor.Octets.{IsByte}
use obicall.Cursor.Write.{encode_with}
use obicall.Cursor.Read.{decode_with}
use obicall.Cursor.Writes.{encode_with-ok}
use obicall.Cursor.Codec.{decode_with-whole}
use obicall.Digest.Crc32.{crc32, crc32-lt}
use obicall.Gate.State.{max_pipelines, GateState}
use obicall.Gate.Codec.{
  encode_state, decode_state, gate_writers, gate_reader, gate_layout, restored, IsGateWords,
  gate_writers-Writes, gate_reader-Reads, gate_layout-IsByte,
}
use obicall.Status.{ok, err, wire_malformed, wire_checksum, buffer_too_small}
use obicall.Gate.Record.{
  length-persist_layout, split_record, load_state-record, persist_payload-ok, load_payload-checked,
}

-- The payload of a stored state.
encode_state-ok :
    (s : GateState) (out_cap : ℕ) (payload : List ℕ)
    → out_cap < 2 ^ 32
    → encode_state s out_cap ≡ ok payload
    → (ltb max_pipelines s.pipeline_count ≡ false)
      × (payload ≡ gate_layout s)
      × (length payload ≤ out_cap)
unfolding encode_state
encode_state-ok s out_cap payload word done =
    elim (Bool-cases (ltb max_pipelines s.pipeline_count)) [
      | inl over ↦ ground arith
      | inr fits ↦
          let plain : encode_with buffer_too_small out_cap (gate_writers s) ≡ ok payload =
            ground arith in
          let (same, short) =
            encode_with-ok buffer_too_small out_cap (gate_writers s) (gate_layout s) payload
              (gate_writers-Writes s) word plain in
          (fits, same, short)
    ]

decode_state-gate_layout :
    (s : GateState)
    → IsGateWords s
    → ltb max_pipelines s.pipeline_count ≡ false
    → length (gate_layout s) < 2 ^ 32
    → decode_state (gate_layout s) ≡ ok (restored s)
unfolding decode_state
decode_state-gate_layout s v fits h =
    decode_with-whole gate_reader (gate_layout s) (restored s) (gate_reader-Reads s v fits) h

module _ (device : Device) (s : GateState) (v : IsGateWords s) (file : List ℕ)
    (done : persist_state device s ≡ ok file) where
  -- The record in the file.
  is_record :
      (payload : List ℕ) × (ltb max_pipelines s.pipeline_count ≡ false)
      × (payload ≡ gate_layout s)
      × (length payload ≤ persist_max_payload)
      × (crc32 payload < 2 ^ 32)
      × (file ≡ persist_layout (length payload) (crc32 payload) ++ payload)
  unfolding persist_state
  is_record =
      let (payload, enc, e) =
        persist_payload-ok device (encode_state s persist_max_payload) file done in
      let (fits, is_layout, short) =
        encode_state-ok s persist_max_payload payload (omega arith) enc in
      (
        payload,
        fits,
        is_layout,
        short,
        crc32-lt payload (subst (All IsByte) (sym is_layout) (gate_layout-IsByte s v)),
        e,
      )

  -- A state that was stored is loaded again, with this host's struct size and blank slots behind
  -- the count, whatever follows in the file.
  pub load-persist_state : (post : List ℕ) → load_state (file ++ post) ≡ ok (restored s)
  load-persist_state post =
      let (payload, fits, is_layout, short, word, e) = is_record in
      let layout = persist_layout (length payload) (crc32 payload) in
      let same : (crc32 payload == crc32 payload) ≡ true = ground arith in
      ap load_state (ap (λ f. f ++ post) e ∙ append_assoc layout payload post)
      ∙ load_state-record (length payload) (crc32 payload) (payload ++ post) short word
      ∙ load_payload-checked payload post (length payload) (crc32 payload) refl
      ∙ ap (λ b. if not b then err wire_checksum else decode_state payload) same
      ∙ ap decode_state is_layout
      ∙ decode_state-gate_layout s v fits (omega (arith, ap length is_layout, short))

  -- A stored record whose payload was replaced by bytes with another checksum is refused.
  pub load_state_corrupt :
      (body post : List ℕ)
      → persist_header_len + length body ≡ length file
      → crc32 body ≢ crc32 (drop persist_header_len file)
      → load_state (take persist_header_len file ++ (body ++ post)) ≡ err wire_checksum
  load_state_corrupt body post same_length other =
      let (payload, fits, is_layout, short, word, e) = is_record in
      let layout = persist_layout (length payload) (crc32 payload) in
      let (header, behind) = split_record (length payload) (crc32 payload) payload in
      let same : length body ≡ length payload = omega (
        arith,
        same_length,
        ap length e,
        length-append layout payload,
        length-persist_layout (length payload) (crc32 payload),
      ) in
      let differs : (crc32 body == crc32 payload) ≡ false =
        ground (arith, other, ap crc32 (ap (drop persist_header_len) e ∙ behind)) in
      ap (λ h. load_state (h ++ (body ++ post))) (ap (take persist_header_len) e ∙ header)
      ∙ load_state-record (length payload) (crc32 payload) (body ++ post) short word
      ∙ load_payload-checked body post (length payload) (crc32 payload) same
      ∙ ap (λ b. if not b then err wire_checksum else decode_state body) differs

  -- A stored record that breaks off anywhere is refused as malformed.
  pub load_state_cut :
      (s t : List ℕ) (x : ℕ) → file ≡ s ++ (x ∷ t) → load_state s ≡ err wire_malformed
  unfolding load_state
  load_state_cut kept t x cut =
      let (payload, fits, is_layout, short, word, e) = is_record in
      let layout = persist_layout (length payload) (crc32 payload) in
      elim (split_cases layout payload kept t x (sym e ∙ cut)) [
        | inl (u, in_header) ↦
            let early : ltb (length kept) persist_header_len ≡ true = ground (
              arith,
              ap length in_header,
              length-append kept (x ∷ u),
              length-persist_layout (length payload) (crc32 payload),
            ) in
            ap
              (λ b.
                if b
                then err wire_malformed
                else load_payload (drop persist_header_len kept)
                    (decode_with persist_reader (take persist_header_len kept)))
              early
        | inr (u, kept_is, rest_is) ↦
            let few : ltb (length u) (length payload) ≡ true =
              ground (arith, ap length rest_is, length-append u (x ∷ t)) in
            ap load_state kept_is
            ∙ load_state-record (length payload) (crc32 payload) u short word
            ∙ ap
                (λ b.
                  if b
                  then err wire_malformed
                  else if not (crc32 (take (length payload) u) == crc32 payload)
                  then err wire_checksum
                  else decode_state (take (length payload) u))
                few
      ]
