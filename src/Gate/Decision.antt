-- ===== src/Gate/Decision.antt =====
-- src/core/gate.c: when `obicall_gate_decide_publish` commits a result, and what a decision changes.
use obicall.Common.Marks.{is_fresh}
use obicall.Common.{
  ◌^◌, ◌%◌, ℕ, zero, suc, ◌+◌, ◌≤◌, ◌<◌, ◌≡◌, refl, sym, ap, subst, ◌∙◌, ◌⊎◌, inl, inr, Bool, true,
  false, not, ◌&&◌, List, [], ◌∷◌, Option, none, arith, ◌==◌, ℤ, ltb_ℤ, ◌≢◌,
}
use obicall.FusionResult.{FusionResult, sizeof_fusion_result, result_schema_version}
use obicall.Gate.State.{
  PipelineState, max_pipelines, broker_none, GateState, IsGateState, reject_no_capacity,
}
use obicall.Gate.Publish.{
  find_pipeline, register_pipeline, Published, publish_to, publish_known, decide_publish,
}
use obicall.Gate.Marks.{high_water}
use obicall.Gate.Promote.{promote}
use obicall.Gate.HighWater.{
  is_commit, is_current, Decided, Slot, publish_to-is_current, publish_to-Decided, kept-Decided,
  has_room, register-Slot, register-IsGateState, register-high_water, transfer-Decided,
}

-- What is proved of a decision: when it commits, and what it changes.
abbrev Outcome : GateState → FusionResult → Bool → Published → Type 0
Outcome s r commits out = (is_commit out.outcome ≡ commits) × Decided s r out

publish_registered :
    (s : GateState) (r : FusionResult)
    → IsGateState s
    → s.pipeline_count < max_pipelines
    → find_pipeline r.pipeline_id s.pipeline_count s.pipelines 0 ≡ max_pipelines
    → Outcome s r
        (is_current s r)
        (publish_to (register_pipeline s r.pipeline_id) s.pipeline_count r)
unfolding register_pipeline
publish_registered s r w room absent =
    let t = register_pipeline s r.pipeline_id in
    let tw = register-IsGateState s r.pipeline_id w room absent in
    let slot = register-Slot s r.pipeline_id w room absent in
    let same = register-high_water s r.pipeline_id w room absent in
    (
      publish_to-is_current t r s.pipeline_count tw slot
          ∙ ap
              (λ (m : Option ℕ).
                not (s.owner_broker_id == broker_none)
                && (r.broker_id == s.owner_broker_id)
                && (r.epoch == s.epoch)
                && is_fresh m r.window_seq)
              (same r.pipeline_id),
      transfer-Decided s t r _ refl refl same (publish_to-Decided t r s.pipeline_count tw slot),
    )

publish_known-cases :
    (s : GateState) (r : FusionResult) (found : ℕ)
    → ((found ≢ max_pipelines) × (publish_known s r found ≡ publish_to s found r))
      ⊎ ((found ≡ max_pipelines)
          × (max_pipelines ≤ s.pipeline_count)
          × (publish_known s r found
              ≡ record { state = s; outcome = reject_no_capacity; pipeline_index = none }))
      ⊎ ((found ≡ max_pipelines)
          × (s.pipeline_count < max_pipelines)
          × (publish_known s r found
              ≡ publish_to (register_pipeline s r.pipeline_id) s.pipeline_count r))
unfolding publish_known
publish_known-cases s r found = ground arith

find_pipeline-le :
    (id : List ℕ) (n : ℕ) (ps : List PipelineState) (i : ℕ)
    → i + n ≤ max_pipelines
    → find_pipeline id n ps i ≤ max_pipelines
unfolding find_pipeline
find_pipeline-le id zero ps i h = omega arith
find_pipeline-le id (suc n) [] i h = omega arith
find_pipeline-le id (suc n) (p ∷ ps) i h =
    ground (arith, find_pipeline-le id n ps (suc i) (omega arith))

publish_known-Outcome :
    (s : GateState) (r : FusionResult) (found : ℕ)
    → IsGateState s
    → find_pipeline r.pipeline_id s.pipeline_count s.pipelines 0 ≡ found
    → Outcome s r (has_room s r.pipeline_id && is_current s r) (publish_known s r found)
publish_known-Outcome s r found w here = elim (publish_known-cases s r found) [
  | inl (known, e) ↦
      let le =
        find_pipeline-le r.pipeline_id s.pipeline_count s.pipelines 0
          (omega (arith, w.count_fits)) in
      let slot : Slot s r.pipeline_id found = record {
        found = here;
        inside = omega (arith, le, here, known);
      } in
      let has_room_true : has_room s r.pipeline_id ≡ true = ground arith in
      let room : has_room s r.pipeline_id && is_current s r ≡ is_current s r =
        ap (λ b. b && is_current s r) (has_room_true) in
      subst (Outcome s r (has_room s r.pipeline_id && is_current s r)) (sym e)
        (publish_to-is_current s r found w slot ∙ sym room, publish_to-Decided s r found w slot)
  | inr (inl (absent, full, e)) ↦
      let has_room_false : has_room s r.pipeline_id ≡ false = ground arith in
      let no_room : has_room s r.pipeline_id && is_current s r ≡ false =
        ap (λ b. b && is_current s r) (has_room_false) in
      subst (Outcome s r (has_room s r.pipeline_id && is_current s r)) (sym e)
        (sym no_room, kept-Decided s s r _ w refl refl (λ id. refl) refl refl)
  | inr (inr (absent, free, e)) ↦
      let has_room_true : has_room s r.pipeline_id ≡ true = ground arith in
      let room : has_room s r.pipeline_id && is_current s r ≡ is_current s r =
        ap (λ b. b && is_current s r) (has_room_true) in
      let (commits, d) = publish_registered s r w free (here ∙ absent) in
      subst (Outcome s r (has_room s r.pipeline_id && is_current s r)) (sym e)
        (commits ∙ sym room, d)
]

-- The versions and the lifetime that a result needs.
abbrev pub is_valid : FusionResult → ℤ → Bool
is_valid r now_ns =
    (r.struct_size == sizeof_fusion_result)
    && (r.schema_version == result_schema_version)
    && ltb_ℤ now_ns r.valid_until_ns

-- A submitted result is committed exactly if its versions are this gate's, it has not expired, its pipeline has
-- a slot or there is a free one, and it comes from the current owner, in the current epoch, with a window above
-- the pipeline's last committed one.
pub decide_publish-is_commit :
    (s : GateState) (r : FusionResult) (now_ns : ℤ)
    → IsGateState s
    → is_commit (decide_publish s r now_ns).outcome
      ≡ (is_valid r now_ns && has_room s r.pipeline_id && is_current s r)
unfolding decide_publish
decide_publish-is_commit s r now_ns w = ground (arith, (publish_known-Outcome s r _ w refl).0)

decide_publish-cases :
    (s : GateState) (r : FusionResult) (now_ns : ℤ)
    → ((decide_publish s r now_ns).state ≡ s)
        × (is_commit (decide_publish s r now_ns).outcome ≡ false)
      ⊎ (decide_publish s r now_ns
          ≡ publish_known s r (find_pipeline r.pipeline_id s.pipeline_count s.pipelines 0))
unfolding decide_publish
decide_publish-cases s r now_ns = ground arith

-- A decision keeps the state well formed and keeps the epoch and the owner. A committed result sets the last
-- committed window of its own pipeline; all other marks, and all marks after any other outcome, stay.
pub decide_publish-Decided :
    (s : GateState) (r : FusionResult) (now_ns : ℤ)
    → IsGateState s
    → Decided s r (decide_publish s r now_ns)
decide_publish-Decided s r now_ns w = elim (decide_publish-cases s r now_ns) [
  | inl (same, refused) ↦ kept-Decided s s r _ w refl refl (λ id. refl) same refused
  | inr e ↦ subst (Decided s r) (sym e) ((publish_known-Outcome s r _ w refl).1)
]

-- After a promotion exactly the results of the new owner and of the new epoch are committed, under the marks
-- from before it. What the old owner still sends of the old epoch is not.
pub promote-decide_publish :
    (s : GateState) (broker : ℕ) (r : FusionResult) (now_ns : ℤ)
    → IsGateState s
    → is_commit (decide_publish (promote s broker now_ns).0 r now_ns).outcome ≡ (
        is_valid r now_ns
        && has_room s r.pipeline_id
        && (not (broker == broker_none)
            && (r.broker_id == broker)
            && (r.epoch == (s.epoch + 1) % 2 ^ 64)
            && is_fresh (high_water s r.pipeline_id) r.window_seq))
unfolding promote high_water
promote-decide_publish s broker r now_ns w =
    decide_publish-is_commit (promote s broker now_ns).0 r now_ns
      (record { count_fits = w.count_fits; slots = w.slots })
