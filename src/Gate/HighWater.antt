-- ===== src/Gate/HighWater.antt =====
-- src/core/gate.c: `obicall_gate_decide_publish` against the abstract view of the state.
use obicall.Common.Marks.{is_fresh}
use obicall.Common.{
  ℕ, ◌<◌, ◌≡◌, refl, sym, ap, subst, ◌∙◌, inl, inr, Bool, true, false, not, ◌&&◌, ◌||◌, List,
  Option, none, some, arith, ltb, ◌==◌, if◌then◌else◌, Bool-cases, same_bytes,
}
use obicall.FusionResult.{FusionResult}
use obicall.Gate.State.{
  PipelineState, blank_pipeline, max_pipelines, broker_none, GateState, IsGateState, PublishOutcome,
  commit, shadow_recorded, reject_not_owner, reject_stale_epoch, reject_duplicate_window,
  reject_expired, reject_incompatible, reject_no_capacity,
}
use obicall.Gate.Publish.{
  find_pipeline, pipeline_at, register_pipeline, commit_window, is_duplicate, Published, publish_to,
}
use obicall.Gate.Marks.{
  committed_mark, high_water, find_pipeline-Slot, marks-set, marks-append, find_pipeline-append,
  length-set,
}

abbrev pub is_commit : PublishOutcome → Bool
is_commit commit = true
is_commit shadow_recorded = false
is_commit reject_not_owner = false
is_commit reject_stale_epoch = false
is_commit reject_duplicate_window = false
is_commit reject_expired = false
is_commit reject_incompatible = false
is_commit reject_no_capacity = false

-- The submission comes from the current owner, in its epoch, with a new window.
abbrev pub is_current : GateState → FusionResult → Bool
is_current s r =
    not (s.owner_broker_id == broker_none)
    && (r.broker_id == s.owner_broker_id)
    && (r.epoch == s.epoch)
    && is_fresh (high_water s r.pipeline_id) r.window_seq

-- The marks that a published result leaves.
abbrev pub mark_after : Bool → FusionResult → (List ℕ → Option ℕ) → List ℕ → Option ℕ
mark_after committed r before id =
    if committed && same_bytes r.pipeline_id id then some r.window_seq else before id

-- What a decision keeps and what it changes.
pub record Decided (s : GateState) (r : FusionResult) (out : Published) : Type 0 where
  pub well_formed : IsGateState out.state
  pub epoch_kept : out.state.epoch ≡ s.epoch
  pub owner_kept : out.state.owner_broker_id ≡ s.owner_broker_id
  pub marked :
      (id : List ℕ)
      → high_water out.state id ≡ mark_after (is_commit out.outcome) r (high_water s) id

-- A pipeline's slot, in use.
pub record Slot (s : GateState) (id : List ℕ) (k : ℕ) : Type 0 where
  pub found : find_pipeline id s.pipeline_count s.pipelines 0 ≡ k
  pub inside : k < max_pipelines

pub Slot-pipeline :
    (s : GateState) (id : List ℕ) (k : ℕ)
    → IsGateState s
    → Slot s id k
    → ((pipeline_at s k).pipeline_id ≡ id) × (high_water s id ≡ committed_mark (pipeline_at s k))
unfolding high_water
Slot-pipeline s id k w slot =
    let (p, at_k, named, bound, mark) =
      find_pipeline-Slot id s.pipeline_count s.pipelines 0 k (omega (arith, w.count_fits))
        (omega (arith, slot.found)) (omega (arith, slot.inside)) in
    let here : pipeline_at s k ≡ p =
      ap (λ (o : Option PipelineState). elim o [ none ↦ blank_pipeline | some x ↦ x ]) at_k in
    (ap (λ (x : PipelineState). x.pipeline_id) here ∙ named, mark ∙ ap committed_mark (sym here))

commit_window-mark :
    (s : GateState) (r : FusionResult) (k : ℕ)
    → IsGateState s
    → Slot s r.pipeline_id k
    → (id : List ℕ) → high_water (commit_window s k r) id ≡ mark_after true r (high_water s) id
unfolding high_water commit_window
commit_window-mark s r k w slot id =
    marks-set r.pipeline_id id s.pipeline_count s.pipelines 0 k _ (omega (arith, w.count_fits))
      (omega (arith, slot.found)) (omega (arith, slot.inside))
      ((Slot-pipeline s r.pipeline_id k w slot).0)

-- A slot's window test is the abstract one.
is_fresh-is_duplicate :
    (p : PipelineState) (r : FusionResult)
    → is_fresh (committed_mark p) r.window_seq ≡ not (is_duplicate p r)
is_fresh-is_duplicate p r = ground arith

-- The decision for a pipeline whose slot is known: it commits exactly the current submissions.
pub publish_to-is_current :
    (s : GateState) (r : FusionResult) (k : ℕ)
    → IsGateState s
    → Slot s r.pipeline_id k
    → is_commit (publish_to s k r).outcome ≡ is_current s r
unfolding publish_to
publish_to-is_current s r k w slot =
    let fresh : is_fresh (high_water s r.pipeline_id) r.window_seq
        ≡ not (is_duplicate (pipeline_at s k) r) =
      ap (λ (m : Option ℕ). is_fresh m r.window_seq) ((Slot-pipeline s r.pipeline_id k w slot).1)
      ∙ is_fresh-is_duplicate (pipeline_at s k) r in
    ground (arith, fresh)

publish_to-state :
    (s : GateState) (r : FusionResult) (k : ℕ)
    → (publish_to s k r).state
      ≡ (if is_commit (publish_to s k r).outcome then commit_window s k r else s)
unfolding publish_to
publish_to-state s r k = ground arith

commit_window-Decided :
    (s : GateState) (r : FusionResult) (k : ℕ) (out : Published)
    → IsGateState s
    → Slot s r.pipeline_id k
    → out.state ≡ commit_window s k r
    → is_commit out.outcome ≡ true
    → Decided s r out
unfolding commit_window
commit_window-Decided s r k out w slot st committed = record {
  well_formed =
      subst IsGateState (sym st)
        (record { count_fits = w.count_fits; slots = length-set s.pipelines k _ ∙ w.slots });
  epoch_kept = ap (λ (x : GateState). x.epoch) st;
  owner_kept = ap (λ (x : GateState). x.owner_broker_id) st;
  marked = λ id.
      ap (λ (x : GateState). high_water x id) st
      ∙ commit_window-mark s r k w slot id
      ∙ ap (λ b. mark_after b r (high_water s) id) (sym committed);
}

-- A decision that leaves the marks as they are and commits nothing.
pub kept-Decided :
    (s t : GateState) (r : FusionResult) (out : Published)
    → IsGateState t
    → t.epoch ≡ s.epoch
    → t.owner_broker_id ≡ s.owner_broker_id
    → ((id : List ℕ) → high_water t id ≡ high_water s id)
    → out.state ≡ t
    → is_commit out.outcome ≡ false
    → Decided s r out
kept-Decided s t r out w same_epoch same_owner same st refused = record {
  well_formed = subst IsGateState (sym st) w;
  epoch_kept = ap (λ (x : GateState). x.epoch) st ∙ same_epoch;
  owner_kept = ap (λ (x : GateState). x.owner_broker_id) st ∙ same_owner;
  marked = λ id.
      ap (λ (x : GateState). high_water x id) st
      ∙ same id
      ∙ ap (λ b. mark_after b r (high_water s) id) (sym refused);
}

pub publish_to-Decided :
    (s : GateState) (r : FusionResult) (k : ℕ)
    → IsGateState s
    → Slot s r.pipeline_id k
    → Decided s r (publish_to s k r)
publish_to-Decided s r k w slot = elim (Bool-cases (is_commit (publish_to s k r).outcome)) [
  | inl done ↦
      commit_window-Decided s r k _ w slot
        (publish_to-state s r k ∙ ap (λ b. if b then commit_window s k r else s) done) done
  | inr refused ↦
      kept-Decided s s r _ w refl refl (λ id. refl)
        (publish_to-state s r k ∙ ap (λ b. if b then commit_window s k r else s) refused) refused
]

-- The pipeline has a slot.
abbrev pub is_registered : GateState → List ℕ → Bool
is_registered s id = not (find_pipeline id s.pipeline_count s.pipelines 0 == max_pipelines)

abbrev pub has_room : GateState → List ℕ → Bool
has_room s id = is_registered s id || ltb s.pipeline_count max_pipelines

-- A new pipeline is registered without a mark, and nothing else changes.
module _ (s : GateState) (id : List ℕ) (w : IsGateState s) (room : s.pipeline_count < max_pipelines)
    (absent : find_pipeline id s.pipeline_count s.pipelines 0 ≡ max_pipelines) where
  pub register-Slot : Slot (register_pipeline s id) id s.pipeline_count
  unfolding register_pipeline
  register-Slot = record {
    found =
        find_pipeline-append id s.pipeline_count s.pipelines 0 _ (omega (arith, w.slots))
          (omega (arith, room)) absent refl
        ∙ omega arith;
    inside = room;
  }

  pub register-IsGateState : IsGateState (register_pipeline s id)
  unfolding register_pipeline
  register-IsGateState = record {
    count_fits = room;
    slots = length-set s.pipelines s.pipeline_count _ ∙ w.slots;
  }

  pub register-high_water :
      (other : List ℕ) → high_water (register_pipeline s id) other ≡ high_water s other
  unfolding register_pipeline high_water
  register-high_water other =
      marks-append other s.pipeline_count s.pipelines _ (omega (arith, w.slots)) refl

-- A decision on a state with the same marks.
pub transfer-Decided :
    (s t : GateState) (r : FusionResult) (out : Published)
    → t.epoch ≡ s.epoch
    → t.owner_broker_id ≡ s.owner_broker_id
    → ((id : List ℕ) → high_water t id ≡ high_water s id)
    → Decided t r out
    → Decided s r out
transfer-Decided s t r out same_epoch same_owner same d = record {
  well_formed = d.well_formed;
  epoch_kept = d.epoch_kept ∙ same_epoch;
  owner_kept = d.owner_kept ∙ same_owner;
  marked = λ id.
      d.marked id
      ∙ ap
          (λ (m : Option ℕ).
            if is_commit out.outcome && same_bytes r.pipeline_id id then some r.window_seq else m)
          (same id);
}
