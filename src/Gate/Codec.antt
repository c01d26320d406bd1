-- ===== src/Gate/Codec.antt =====
-- src/core/gate.c: `obicall_gate_encode_state` and `obicall_gate_decode_state`.
use obicall.Common.{
  ℕ, ◌≤◌, ◌≡◌, false, List, [], ◌∷◌, arith, ltb, if◌then◌else◌, length, take, length-take, take-All,
  padded, All,
}
use obicall.Cursor.Octets.{IsByte, octets, octets-IsByte}
use obicall.Cursor.Write.{Writer, wc_u32, wc_u64, wc_bytes, wc_fixed, wc_each, block, encode_with}
use obicall.Cursor.Read.{
  Reader, ◌>>=◌, ◌>>◌, pure, rc_u32, rc_u64, rc_bytes, rc_fixed, rc_each, rc_check, decode_with,
}
use obicall.Cursor.Writes.{
  Writes, fields, each_field, writes_rules, Writes-each, fields-IsByte, each_field-IsByte,
}
use obicall.Cursor.Reads.{Reads, IsSticky}
use obicall.Cursor.Codec.{
  IsWord, Reads-field, Reads-guard, Reads-end, Reads-u32, Reads-u64, Reads-each, IsSticky-each,
  sticky_rules, reads_rules,
}
use obicall.FusionResult.{pipeline_id_len, digest_len}
use obicall.Gate.State.{PipelineState, blank_pipeline, max_pipelines, GateState}
use obicall.Status.{Result, err, invalid_argument, buffer_too_small}

-- `sizeof(obicall_gate_state_t)` with 8-byte alignment of 64-bit fields.
abbrev pub sizeof_gate_state : ℕ
sizeof_gate_state = 664

-- Every field holds a value of its C type.
pub record IsPipelineState (p : PipelineState) : Type 0 where
  pub pipeline_id_length : length p.pipeline_id ≡ pipeline_id_len
  pub has_committed_word : IsWord 32 p.has_committed
  pub last_window_word : IsWord 64 p.last_committed_window_seq
  pub digest_length : length p.last_committed_digest ≡ digest_len
  pub pipeline_id_bytes : All IsByte p.pipeline_id
  pub digest_bytes : All IsByte p.last_committed_digest

pub record IsGateWords (s : GateState) : Type 0 where
  pub struct_size_word : IsWord 32 s.struct_size
  pub schema_version_word : IsWord 32 s.schema_version
  pub epoch_word : IsWord 64 s.epoch
  pub owner_word : IsWord 32 s.owner_broker_id
  pub count_word : IsWord 32 s.pipeline_count
  pub slots : length s.pipelines ≡ max_pipelines
  pub pipelines_words : All IsPipelineState s.pipelines

pub pipeline_writer : PipelineState → Writer
pipeline_writer p = block (
    wc_fixed p.pipeline_id
    ∷ wc_u32 p.has_committed
    ∷ wc_u64 p.last_committed_window_seq
    ∷ wc_bytes p.last_committed_digest
    ∷ [])

unfoldable pub gate_writers : GateState → List Writer
gate_writers s =
    wc_u32 s.struct_size
    ∷ wc_u32 s.schema_version
    ∷ wc_u64 s.epoch
    ∷ wc_u32 s.owner_broker_id
    ∷ wc_u32 s.pipeline_count
    ∷ wc_each pipeline_writer s.pipeline_count s.pipelines
    ∷ []

unfoldable pub encode_state : GateState → ℕ → Result (List ℕ)
encode_state s out_cap =
    if ltb max_pipelines s.pipeline_count
    then err invalid_argument
    else encode_with buffer_too_small out_cap (gate_writers s)

pub pipeline_reader : Reader PipelineState
pipeline_reader = do
  pipeline_id ← rc_fixed pipeline_id_len
  has_committed ← rc_u32
  last_committed_window_seq ← rc_u64
  last_committed_digest ← rc_bytes digest_len
  pure (record {
    pipeline_id = pipeline_id;
    has_committed = has_committed;
    last_committed_window_seq = last_committed_window_seq;
    last_committed_digest = last_committed_digest;
  })

pub gate_reader : Reader GateState
gate_reader = do
  struct_size ← rc_u32
  schema_version ← rc_u32
  epoch ← rc_u64
  owner_broker_id ← rc_u32
  pipeline_count ← rc_u32
  rc_check (ltb max_pipelines pipeline_count)
  pipelines ← rc_each pipeline_reader pipeline_count
  pure (record {
    struct_size = sizeof_gate_state;
    schema_version = schema_version;
    epoch = epoch;
    owner_broker_id = owner_broker_id;
    pipeline_count = pipeline_count;
    pipelines = padded max_pipelines blank_pipeline pipelines;
  })

unfoldable pub decode_state : List ℕ → Result GateState
decode_state input = decode_with gate_reader input

-- The wire format of a slot and of the state.
unfoldable pub pipeline_layout : PipelineState → List ℕ
pipeline_layout p = fields (
    p.pipeline_id
    ∷ octets 4 p.has_committed
    ∷ octets 8 p.last_committed_window_seq
    ∷ p.last_committed_digest
    ∷ [])

unfoldable pub gate_layout : GateState → List ℕ
gate_layout s = fields (
    octets 4 s.struct_size
    ∷ octets 4 s.schema_version
    ∷ octets 8 s.epoch
    ∷ octets 4 s.owner_broker_id
    ∷ octets 4 s.pipeline_count
    ∷ each_field pipeline_layout (take s.pipeline_count s.pipelines)
    ∷ [])

-- What a decoder makes of an encoded state: the slots that are not in use are blank.
unfoldable pub restored : GateState → GateState
restored s = record s {
  struct_size = sizeof_gate_state;
  pipelines = padded max_pipelines blank_pipeline (take s.pipeline_count s.pipelines);
}

pipeline_writer-Writes : (p : PipelineState) → Writes (pipeline_writer p) (pipeline_layout p)
unfolding pipeline_writer pipeline_layout
pipeline_writer-Writes p = search writes_rules depth 40

pipelines-Writes :
    (n : ℕ) (ps : List PipelineState)
    → Writes (wc_each pipeline_writer n ps) (each_field pipeline_layout (take n ps))
pipelines-Writes n ps = Writes-each pipeline_writer pipeline_layout n ps pipeline_writer-Writes

pub gate_writers-Writes : (s : GateState) → Writes (block (gate_writers s)) (gate_layout s)
unfolding gate_writers gate_layout
gate_writers-Writes s = search (writes_rules, pipelines-Writes) depth 40

pipeline_reader-IsSticky : IsSticky pipeline_reader
unfolding pipeline_reader
pipeline_reader-IsSticky = search sticky_rules depth 60 fits 20000

pipeline_reader-Reads :
    (p : PipelineState) → IsPipelineState p → Reads pipeline_reader (pipeline_layout p) p
unfolding pipeline_reader pipeline_layout
pipeline_reader-Reads p v =
    search
      (reads_rules, v.pipeline_id_length, v.has_committed_word, v.last_window_word, v.digest_length)
      depth 40

pipelines-IsSticky : (n : ℕ) → IsSticky (rc_each pipeline_reader n)
pipelines-IsSticky = IsSticky-each pipeline_reader pipeline_reader-IsSticky

pipelines-Reads :
    (n : ℕ) (ps : List PipelineState)
    → n ≤ length ps
    → All IsPipelineState ps
    → Reads (rc_each pipeline_reader n) (each_field pipeline_layout (take n ps)) (take n ps)
pipelines-Reads n ps h all =
    Reads-each pipeline_reader pipeline_reader-IsSticky pipeline_layout IsPipelineState
      pipeline_reader-Reads n (take n ps) (length-take n ps h) (take-All IsPipelineState n ps all)

pub gate_reader-Reads :
    (s : GateState)
    → IsGateWords s
    → ltb max_pipelines s.pipeline_count ≡ false
    → Reads gate_reader (gate_layout s) (restored s)
unfolding gate_reader gate_layout restored
gate_reader-Reads s v h =
    Reads-field _ (Reads-u32 _ v.struct_size_word)
      (search (sticky_rules, pipelines-IsSticky) depth 60 fits 20000)
      (Reads-field _ (Reads-u32 _ v.schema_version_word)
        (search (sticky_rules, pipelines-IsSticky) depth 60 fits 20000)
        (Reads-field _ (Reads-u64 _ v.epoch_word)
          (search (sticky_rules, pipelines-IsSticky) depth 60 fits 20000)
          (Reads-field _ (Reads-u32 _ v.owner_word)
            (search (sticky_rules, pipelines-IsSticky) depth 60 fits 20000)
            (Reads-field _ (Reads-u32 _ v.count_word)
              (search (sticky_rules, pipelines-IsSticky) depth 60 fits 20000)
              (Reads-guard _ h (search (sticky_rules, pipelines-IsSticky) depth 60 fits 20000) (
                Reads-field _ (pipelines-Reads _ _ (ground (arith, v.slots)) v.pipelines_words)
                  (search sticky_rules depth 60 fits 20000) (Reads-end _)))))))

pipeline_layout-IsByte : (p : PipelineState) → IsPipelineState p → All IsByte (pipeline_layout p)
unfolding pipeline_layout
pipeline_layout-IsByte p v = fields-IsByte _ (
  v.pipeline_id_bytes,
  (
    octets-IsByte 4 p.has_committed,
    (octets-IsByte 8 p.last_committed_window_seq, (v.digest_bytes, tt)),
  ),
)

pub gate_layout-IsByte : (s : GateState) → IsGateWords s → All IsByte (gate_layout s)
unfolding gate_layout
gate_layout-IsByte s v =
    let slots_bytes =
      each_field-IsByte pipeline_layout IsPipelineState (take s.pipeline_count s.pipelines)
        pipeline_layout-IsByte
        (take-All IsPipelineState s.pipeline_count s.pipelines v.pipelines_words) in
    fields-IsByte _ (
      octets-IsByte 4 s.struct_size,
      (
        octets-IsByte 4 s.schema_version,
        (
          octets-IsByte 8 s.epoch,
          (
            octets-IsByte 4 s.owner_broker_id,
            (octets-IsByte 4 s.pipeline_count, (slots_bytes, tt)),
          ),
        ),
      ),
    )
