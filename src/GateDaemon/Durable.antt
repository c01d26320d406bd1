-- ===== src/GateDaemon/Durable.antt =====
-- src/gate/gate_main.c: what the state file holds when a result is accepted.
use obicall.Common.{
  ℕ, zero, suc, ◌≤◌, ◌≡◌, refl, sym, ap, ◌∙◌, inl, inr, true, ◌&&◌, List, [], ◌∷◌, ◌++◌, append-nil,
  some, arith, if◌then◌else◌, Bool-cases, ℤ, length, take, same_bytes_refl,
}
use obicall.FusionResult.{FusionResult}
use obicall.Gate.Codec.{IsGateWords, restored}
use obicall.Gate.Decision.{decide_publish-Decided}
use obicall.Gate.HighWater.{is_commit, mark_after}
use obicall.Gate.Marks.{high_water, marks}
use obicall.Gate.Persist.{persist_state, load_state}
use obicall.Gate.Publish.{decide_publish}
use obicall.Gate.Restore.{load-persist_state}
use obicall.Gate.Words.{IsSubmission, decide_publish-IsGateWords}
use obicall.Gate.Working.{works, persist_state-works}
use obicall.Gate.State.{PipelineState, GateState, IsGateState}
use obicall.GateDaemon.Context.{GateCtx, Disk, persist_locked}
use obicall.GateDaemon.Handlers.{handle_result, publish_locked, ack_of}
use obicall.Status.{ok, Result-cases}

-- The marks read only the slots in use, which a stored state keeps.
marks-take :
    (id : List ℕ) (n : ℕ) (ps more : List PipelineState)
    → n ≤ length ps
    → marks id n (take n ps ++ more) ≡ marks id n ps
unfolding marks
marks-take id zero ps more le = refl
marks-take id (suc n) [] more le = absurd (omega arith)
marks-take id (suc n) (p ∷ ps) more le = ground (arith, marks-take id n ps more (omega arith))

high_water-restored :
    (s : GateState) (id : List ℕ) → IsGateState s → high_water (restored s) id ≡ high_water s id
unfolding high_water restored
high_water-restored s id w =
    marks-take id s.pipeline_count s.pipelines _ (omega (arith, w.count_fits, w.slots))

-- A state that was stored is what is loaded from the file.
persist_locked-load_state :
    (disk : Disk) (ctx : GateCtx)
    → IsGateWords ctx.state
    → (persist_locked disk ctx).1 ≡ true
    → load_state (persist_locked disk ctx).0.file ≡ ok (restored ctx.state)
unfolding persist_locked
persist_locked-load_state disk ctx v stored =
    elim (Result-cases (persist_state disk.device ctx.state)) [
      | inl (e, failed) ↦ absurd (ground (arith, failed))
      | inr (content, written) ↦
          let opened : disk.opened ≡ true = ground (arith, written) in
          let replaced : disk.replaced ≡ true = ground (arith, written, opened) in
          let here : (persist_locked disk ctx).0.file ≡ content =
            ground (arith, written, opened, replaced) in
          ap load_state (here ∙ sym (append-nil content))
          ∙ load-persist_state disk.device ctx.state v content written []
    ]

-- On a disk that works, a state is stored.
persist_locked-works :
    (disk : Disk) (ctx : GateCtx)
    → IsGateState ctx.state
    → IsGateWords ctx.state
    → disk.opened && works disk.device && disk.replaced ≡ true
    → (persist_locked disk ctx).1 ≡ true
unfolding persist_locked
persist_locked-works disk ctx w v h =
    let opened : disk.opened ≡ true = ground (arith, h) in
    let replaced : disk.replaced ≡ true = ground (arith, h) in
    let working : works disk.device ≡ true = ground (arith, h) in
    ground (arith, opened, replaced, persist_state-works disk.device ctx.state w v working)

-- For a state that is well formed and a result of a broker, whose fields have their C types: on a disk that works,
-- the broker is told that its result was accepted exactly if the gate commits it.
pub handle_result-is_commit :
    (disk : Disk) (ctx : GateCtx) (now : ℤ) (r : FusionResult)
    → IsGateState ctx.state
    → IsGateWords ctx.state
    → IsSubmission r
    → disk.opened && works disk.device && disk.replaced ≡ true
    → (handle_result disk ctx now r).1.accepted
      ≡ (if is_commit (decide_publish ctx.state r now).outcome then 1 else 0)
unfolding handle_result ack_of publish_locked
handle_result-is_commit disk ctx now r w words submission h =
    let decided = record ctx { state = (decide_publish ctx.state r now).state } in
    let d = decide_publish-Decided ctx.state r now w in
    let v = decide_publish-IsGateWords ctx.state r now words submission in
    let stored = persist_locked-works disk decided d.well_formed v h in
    elim (Bool-cases (is_commit (decide_publish ctx.state r now).outcome)) [
      | inl commits ↦ rw (commits, stored) refl
      | inr refused ↦ rw refused refl
    ]

-- What an accepted result went through.
accepted_cases :
    (disk : Disk) (ctx : GateCtx) (now : ℤ) (r : FusionResult)
    → (handle_result disk ctx now r).1.accepted ≡ 1
    → (is_commit (decide_publish ctx.state r now).outcome ≡ true)
      × ((publish_locked disk ctx now r).1 ≡ true)
unfolding handle_result ack_of
accepted_cases disk ctx now r acked = (ground arith, ground arith)

-- For a state that is well formed and a result of a broker, whose fields have their C types: a result of which the
-- broker is told that it was accepted is stored. What is loaded from the state file then has its window as the last
-- committed one of its pipeline, and the present epoch and owner.
pub accepted-load_state :
    (disk : Disk) (ctx : GateCtx) (now : ℤ) (r : FusionResult)
    → IsGateState ctx.state
    → IsGateWords ctx.state
    → IsSubmission r
    → (handle_result disk ctx now r).1.accepted ≡ 1
    → (s : GateState) × (load_state (handle_result disk ctx now r).0.file ≡ ok s)
      × (high_water s r.pipeline_id ≡ some r.window_seq)
      × (s.epoch ≡ ctx.state.epoch)
      × (s.owner_broker_id ≡ ctx.state.owner_broker_id)
unfolding handle_result restored publish_locked
accepted-load_state disk ctx now r w words submission acked =
    let v = decide_publish-IsGateWords ctx.state r now words submission in
    let (commits, stored) = accepted_cases disk ctx now r acked in
    let decided = record ctx { state = (decide_publish ctx.state r now).state } in
    let d = decide_publish-Decided ctx.state r now w in
    let e : publish_locked disk ctx now r ≡ persist_locked disk decided = publishes commits in
    let loaded = persist_locked-load_state disk decided v (ap (λ p. p.1) (sym e) ∙ stored) in
    (
      restored (decide_publish ctx.state r now).state,
      ap (λ p. load_state p.0.file) e ∙ loaded,
      high_water-restored (decide_publish ctx.state r now).state r.pipeline_id d.well_formed
          ∙ d.marked r.pipeline_id
          ∙ marked commits,
      d.epoch_kept,
      d.owner_kept,
    )
  where
    publishes :
        is_commit (decide_publish ctx.state r now).outcome ≡ true
        → publish_locked disk ctx now r
          ≡ persist_locked disk (record ctx { state = (decide_publish ctx.state r now).state })
    publishes commits = rw commits refl

    marked :
        is_commit (decide_publish ctx.state r now).outcome ≡ true
        → mark_after
            (is_commit (decide_publish ctx.state r now).outcome)
            r
            (high_water ctx.state)
            r.pipeline_id
          ≡ some r.window_seq
    marked commits = ground (arith, commits, same_bytes_refl r.pipeline_id)
