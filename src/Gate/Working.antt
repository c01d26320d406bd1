-- ===== src/Gate/Working.antt =====
-- src/core/gate.c: a state whose fields have their C types is stored by a device that works.
use obicall.Common.{
  ℕ, ◌+◌, ◌*◌, ◌≤◌, ◌≡◌, refl, ap, ◌∙◌, Bool, true, false, ◌&&◌, List, [], ◌∷◌, ◌++◌, arith, ltb,
  leb, if◌then◌else◌, length, length-append, length-take, All, take-All, take,
}
use obicall.Common.Device.{Device}
use obicall.Cursor.Octets.{octets, length-octets}
use obicall.Cursor.Write.{encode_with}
use obicall.Cursor.Writes.{fields, each_field, encode_with-Writes}
use obicall.Digest.Crc32.{crc32}
use obicall.Gate.Codec.{
  IsPipelineState, IsGateWords, pipeline_layout, gate_layout, gate_writers, gate_writers-Writes,
  encode_state,
}
use obicall.Gate.Persist.{
  persist_max_payload, persist_layout, persist_payload, persist_state, write_record,
}
use obicall.Gate.Record.{persist_header}
use obicall.Gate.State.{PipelineState, GateState, IsGateState, max_pipelines}
use obicall.Status.{ok, err, buffer_too_small, invalid_argument}

abbrev pub works : Device → Bool
works d = d.header_written && d.payload_written && d.flushed && d.synced

total : List (List ℕ) → ℕ
total [] = 0
total (bs ∷ rest) = length bs + total rest

length-fields : (rest : List (List ℕ)) → length (fields rest) ≡ total rest
unfolding fields total
length-fields [] = refl
length-fields (bs ∷ rest) = omega (arith, length-append bs (fields rest), length-fields rest)

length-pipeline_layout : (p : PipelineState) → IsPipelineState p → length (pipeline_layout p) ≡ 76
unfolding pipeline_layout total
length-pipeline_layout p v =
    let sizes = length-fields (
      p.pipeline_id
      ∷ octets 4 p.has_committed
      ∷ octets 8 p.last_committed_window_seq
      ∷ p.last_committed_digest
      ∷ []) in
    omega (
      arith,
      sizes,
      v.pipeline_id_length,
      v.digest_length,
      length-octets 4 p.has_committed,
      length-octets 8 p.last_committed_window_seq,
    )

length-pipelines :
    (ps : List PipelineState)
    → All IsPipelineState ps
    → length (each_field pipeline_layout ps) ≡ 76 * length ps
unfolding each_field fields
length-pipelines [] all = refl
length-pipelines (p ∷ ps) (v, all) = omega (
  arith,
  length-append (pipeline_layout p) (each_field pipeline_layout ps),
  length-pipeline_layout p v,
  length-pipelines ps all,
)

length-gate_layout :
    (s : GateState) → IsGateState s → IsGateWords s → length (gate_layout s) ≤ persist_max_payload
unfolding gate_layout total
length-gate_layout s w v =
    let used = take s.pipeline_count s.pipelines in
    let sizes = length-fields (
      octets 4 s.struct_size
      ∷ octets 4 s.schema_version
      ∷ octets 8 s.epoch
      ∷ octets 4 s.owner_broker_id
      ∷ octets 4 s.pipeline_count
      ∷ each_field pipeline_layout used
      ∷ []) in
    let count : length used ≡ s.pipeline_count =
      length-take s.pipeline_count s.pipelines (omega (arith, w.count_fits, w.slots)) in
    omega (
      arith,
      sizes,
      count,
      w.count_fits,
      length-pipelines used
          (take-All IsPipelineState s.pipeline_count s.pipelines v.pipelines_words),
      length-octets 4 s.struct_size,
      length-octets 4 s.schema_version,
      length-octets 8 s.epoch,
      length-octets 4 s.owner_broker_id,
      length-octets 4 s.pipeline_count,
    )

write_record-works :
    (device : Device) (payload hdr : List ℕ)
    → works device ≡ true
    → write_record device payload (ok hdr) ≡ ok (hdr ++ payload)
write_record-works device payload hdr h = ground arith

-- What a device that works has in the file.
pub persist_state-works :
    (device : Device) (s : GateState)
    → IsGateState s
    → IsGateWords s
    → works device ≡ true
    → persist_state device s
      ≡ ok (persist_layout (length (gate_layout s)) (crc32 (gate_layout s)) ++ gate_layout s)
unfolding persist_state encode_state
persist_state-works device s w v h =
    let payload = gate_layout s in
    let counted : ltb max_pipelines s.pipeline_count ≡ false = ground (arith, w.count_fits) in
    let short : leb (length payload) persist_max_payload ≡ true =
      ground (arith, length-gate_layout s w v) in
    let encoded : encode_with buffer_too_small persist_max_payload (gate_writers s) ≡ ok payload =
      encode_with-Writes buffer_too_small persist_max_payload _ _ (gate_writers-Writes s)
        (omega arith)
      ∙ ap (λ b. if b then ok payload else err buffer_too_small) short in
    ap
      (λ b. persist_payload device (
        if b
        then err invalid_argument
        else encode_with buffer_too_small persist_max_payload (gate_writers s)))
      counted
    ∙ ap (persist_payload device) encoded
    ∙ ap (write_record device payload) (persist_header (length payload) (crc32 payload))
    ∙ write_record-works device payload _ h
