-- ===== src/Gate/Publish.antt =====
-- src/core/gate.c: the decision on a submitted result, `obicall_gate_decide_publish`.
use obicall.Common.{
  ℕ, zero, suc, Bool, not, ◌&&◌, ◌||◌, List, [], ◌∷◌, ◌++◌, Option, none, some, ltb, leb, ◌==◌,
  if◌then◌else◌, same_bytes, take, set, get_elem?, ℤ, leb_ℤ,
}
use obicall.Cursor.Octets.{octets}
use obicall.Digest.Sha256.{sha256_init, sha256_update, sha256_final}
use obicall.FusionResult.{FusionResult, sizeof_fusion_result, result_schema_version}
use obicall.Gate.State.{
  max_pipelines, broker_none, PipelineState, blank_pipeline, GateState, PublishOutcome, commit,
  shadow_recorded, reject_not_owner, reject_stale_epoch, reject_duplicate_window, reject_expired,
  reject_incompatible, reject_no_capacity,
}

-- The bytes of an array of doubles on a little-endian host.
abbrev pub double_bytes : List ℕ → List ℕ
double_bytes [] = []
double_bytes (x ∷ xs) = octets 8 x ++ double_bytes xs

-- The host's bytes of the fields, on a little-endian host.
unfoldable pub compute_result_digest : FusionResult → List ℕ
compute_result_digest r =
    let c0 = sha256_init in
    let c1 = sha256_update c0 (octets 4 r.status) in
    let c2 = sha256_update c1 (octets 4 r.payload_count) in
    let c3 = sha256_update c2 (double_bytes (take r.payload_count r.payload)) in
    let c4 = sha256_update c3 (octets 4 r.covariance_count) in
    let c5 = sha256_update c4 (double_bytes (take r.covariance_count r.covariance)) in
    sha256_final c5

-- The index of the pipeline among the `n` slots from `i` on, `max_pipelines` if it is none of them.
unfoldable pub find_pipeline : List ℕ → ℕ → List PipelineState → ℕ → ℕ
find_pipeline id zero ps i = max_pipelines
find_pipeline id (suc n) [] i = max_pipelines
find_pipeline id (suc n) (p ∷ ps) i =
    let rest = find_pipeline id n ps (suc i) in if same_bytes p.pipeline_id id then i else rest

-- `&state->pipelines[pidx]`, where `pidx` is inside the array.
abbrev pub pipeline_at : GateState → ℕ → PipelineState
pipeline_at state pidx = elim (get_elem? state.pipelines pidx) [
  | none ↦ blank_pipeline
  | some p ↦ p
]

-- A new pipeline takes the first slot that is not in use.
unfoldable pub register_pipeline : GateState → List ℕ → GateState
register_pipeline state id = record state {
  pipeline_count = suc state.pipeline_count;
  pipelines = set state.pipelines state.pipeline_count (record blank_pipeline { pipeline_id = id });
}

abbrev pub is_duplicate : PipelineState → FusionResult → Bool
is_duplicate ps r = not (ps.has_committed == 0) && leb r.window_seq ps.last_committed_window_seq

unfoldable pub commit_window : GateState → ℕ → FusionResult → GateState
commit_window state pidx r = record state {
  pipelines = set state.pipelines pidx (record (pipeline_at state pidx) {
    has_committed = 1;
    last_committed_window_seq = r.window_seq;
    last_committed_digest = compute_result_digest r;
  });
}

pub record Published : Type 0 where
  pub state : GateState
  pub outcome : PublishOutcome
  -- What `*out_pipeline_index` is set to, if it is set.
  pub pipeline_index : Option ℕ

-- The checks of ownership, epoch and window, for a pipeline whose slot is known.
unfoldable pub publish_to : GateState → ℕ → FusionResult → Published
publish_to state pidx r =
    if state.owner_broker_id == broker_none
    then record { state = state; outcome = reject_not_owner; pipeline_index = some pidx }
    else if not (r.broker_id == state.owner_broker_id)
    then (if ltb r.epoch state.epoch
        then record { state = state; outcome = reject_stale_epoch; pipeline_index = some pidx }
        else record { state = state; outcome = shadow_recorded; pipeline_index = some pidx })
    else if not (r.epoch == state.epoch)
    then record { state = state; outcome = reject_stale_epoch; pipeline_index = some pidx }
    else if is_duplicate (pipeline_at state pidx) r
    then record { state = state; outcome = reject_duplicate_window; pipeline_index = some pidx }
    else record { state = commit_window state pidx r; outcome = commit; pipeline_index = some pidx }

-- The slot of the result's pipeline, with a new pipeline registered if there is room.
unfoldable pub publish_known : GateState → FusionResult → ℕ → Published
publish_known state r found =
    if found == max_pipelines
    then (if leb max_pipelines state.pipeline_count
        then record { state = state; outcome = reject_no_capacity; pipeline_index = none }
        else publish_to (register_pipeline state r.pipeline_id) state.pipeline_count r)
    else publish_to state found r

unfoldable pub decide_publish : GateState → FusionResult → ℤ → Published
decide_publish state r now_ns =
    if not (r.struct_size == sizeof_fusion_result)
      || not (r.schema_version == result_schema_version)
    then record { state = state; outcome = reject_incompatible; pipeline_index = none }
    else if leb_ℤ r.valid_until_ns now_ns
    then record { state = state; outcome = reject_expired; pipeline_index = none }
    else publish_known state r (find_pipeline r.pipeline_id state.pipeline_count state.pipelines 0)
