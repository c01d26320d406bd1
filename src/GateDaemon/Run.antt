-- ===== src/GateDaemon/Run.antt =====
-- src/gate/gate_main.c: sequences of frames, as sequences of the gate's decisions and promotions.
use obicall.Common.Marks.{Increasing}
use obicall.Common.{
  ℕ, ◌≡◌, refl, sym, ap, subst, ◌∙◌, inl, inr, Bool, true, false, ◌&&◌, List, [], ◌∷◌, ◌++◌,
  append_assoc, Option, arith, ◌==◌, if◌then◌else◌, if_either, Bool-cases, ℤ,
}
use obicall.FusionResult.{FusionResult}
use obicall.Gate.HighWater.{is_commit}
use obicall.Gate.Marks.{high_water}
use obicall.Gate.Publish.{decide_publish}
use obicall.Gate.Run.{
  GateEvent, submit, promote_to, handle, committed, commits, windows, commits-Increasing,
}
use obicall.Gate.State.{GateState, IsGateState}
use obicall.GateDaemon.Context.{GateCtx, Disk, persist_locked-state}
use obicall.GateDaemon.Handlers.{
  Frame, Reply, note_heartbeat, handle_heartbeat, handle_result, handle_result_publish,
  handle_status_query, handle_frame, publish_locked, ack_of, msg_heartbeat, msg_result_publish,
}
use obicall.GateDaemon.Promotion.{evaluate_promotion_locked, evaluate_promotion_locked-Reason}
use obicall.GateDaemon.Sublist.{Sublist, done, keep, skip, Sublist-append, Sublist-Increasing}
use obicall.Status.{ok, err, Result-cases}
use obicall.Wire.Control.Heartbeat.{Heartbeat, decode_heartbeat}
use obicall.Wire.FusionResult.{decode_result}

-- The result that a frame submits, if its broker is told that it was accepted.
unfoldable pub accepted_by : GateCtx → Frame → List FusionResult
accepted_by ctx f = elim (decode_result f.payload) [
  | err e ↦ []
  | ok r ↦
      if f.msg_type == msg_result_publish && (handle_result f.disk ctx f.now r).1.accepted == 1
      then r ∷ []
      else []
]

unfoldable pub run_frames : GateCtx → List Frame → GateCtx
run_frames ctx [] = ctx
run_frames ctx (f ∷ fs) = run_frames (handle_frame ctx f).0 fs

unfoldable pub accepted : GateCtx → List Frame → List FusionResult
accepted ctx [] = []
accepted ctx (f ∷ fs) = accepted_by ctx f ++ accepted (handle_frame ctx f).0 fs

unfoldable pub run_events : GateState → List GateEvent → GateState
run_events s [] = s
run_events s (e ∷ es) = run_events (handle s e) es

run_events-append :
    (s : GateState) (es fs : List GateEvent)
    → run_events s (es ++ fs) ≡ run_events (run_events s es) fs
unfolding run_events
run_events-append s [] fs = refl
run_events-append s (e ∷ es) fs = run_events-append (handle s e) es fs

commits-append :
    (s : GateState) (es fs : List GateEvent)
    → commits s (es ++ fs) ≡ commits s es ++ commits (run_events s es) fs
unfolding run_events commits
commits-append s [] fs = refl
commits-append s (e ∷ es) fs =
    ap (λ rs. committed s e ++ rs) (commits-append (handle s e) es fs)
    ∙ sym (append_assoc (committed s e) _ _)

-- A frame is a sequence of the gate's decisions and promotions, which commits what it accepts.
abbrev Refines : GateState → GateState → List FusionResult → Type 0
Refines s t rs = (es : List GateEvent) × (t ≡ run_events s es) × Sublist rs (commits s es)

Refines-nothing : (s t : GateState) → t ≡ s → Refines s t []
unfolding run_events commits
Refines-nothing s t same = ([], same, done)

publish_locked-state :
    (disk : Disk) (ctx : GateCtx) (now : ℤ) (r : FusionResult)
    → (publish_locked disk ctx now r).0.state ≡ (decide_publish ctx.state r now).state
unfolding publish_locked
publish_locked-state disk ctx now r =
    let decided = record ctx { state = (decide_publish ctx.state r now).state } in
    if_either (λ (p : GateCtx × Bool). p.0.state ≡ decided.state) _
      (persist_locked-state disk decided) refl

-- Only what is committed is accepted.
acked : Bool → Bool → FusionResult → List FusionResult
acked commits persisted_ok r =
    if (if commits && persisted_ok then 1 else 0) == 1 then r ∷ [] else []

acked-Sublist :
    (commits persisted_ok : Bool) (r : FusionResult)
    → Sublist (acked commits persisted_ok r) ((if commits then r ∷ [] else []) ++ [])
unfolding acked
acked-Sublist true true r = keep r done
acked-Sublist true false r = skip r done
acked-Sublist false persisted_ok r = done

-- A submitted result is one decision.
handle_result-Refines :
    (disk : Disk) (ctx : GateCtx) (now : ℤ) (r : FusionResult)
    → Refines ctx.state
        (handle_result disk ctx now r).0.state
        (if (handle_result disk ctx now r).1.accepted == 1 then r ∷ [] else [])
unfolding handle_result ack_of acked run_events commits handle committed
handle_result-Refines disk ctx now r = (
  submit r now ∷ [],
  publish_locked-state disk ctx now r,
  acked-Sublist (is_commit (decide_publish ctx.state r now).outcome)
      (publish_locked disk ctx now r).1 r,
)

publish-Refines :
    (ctx : GateCtx) (f : Frame)
    → (f.msg_type == msg_result_publish) ≡ true
    → Refines ctx.state
        (handle_result_publish f.disk ctx f.now f.payload).0.state
        (accepted_by ctx f)
unfolding handle_result_publish accepted_by
publish-Refines ctx f published = elim (Result-cases (decode_result f.payload)) [
  | inl (e, bad) ↦
      rw (bad, handle_result_publish, accepted_by) (Refines-nothing ctx.state ctx.state refl)
  | inr (r, good) ↦
      rw (good, handle_result_publish, accepted_by, published)
        (handle_result-Refines f.disk ctx f.now r)
]

-- Other frames have nothing accepted.
accepted_by_other :
    (ctx : GateCtx) (f : Frame)
    → (f.msg_type == msg_result_publish) ≡ false
    → accepted_by ctx f ≡ []
unfolding accepted_by
accepted_by_other ctx f other = elim (Result-cases (decode_result f.payload)) [
  | inl (e, bad) ↦ rw (bad, accepted_by) refl
  | inr (r, good) ↦ rw (good, accepted_by, other) refl
]

evaluate-Refines :
    (disk : Disk) (ctx : GateCtx) (now : ℤ)
    → Refines ctx.state (evaluate_promotion_locked disk ctx now).state []
unfolding run_events commits handle committed
evaluate-Refines disk ctx now = elim (evaluate_promotion_locked-Reason disk ctx now) [
  | inl same ↦ ([], same, done)
  | inr (broker, reason, granted) ↦ (promote_to broker now ∷ [], granted, done)
]

note_heartbeat-state :
    (ctx : GateCtx) (hb : Heartbeat) (now : ℤ) → (note_heartbeat ctx hb now).state ≡ ctx.state
unfolding note_heartbeat
note_heartbeat-state ctx hb now = if_either (λ (c : GateCtx). c.state ≡ ctx.state) _ refl refl

heartbeat-Refines :
    (disk : Disk) (ctx : GateCtx) (now : ℤ) (payload : List ℕ)
    → Refines ctx.state (handle_heartbeat disk ctx now payload).0.state []
unfolding handle_heartbeat
heartbeat-Refines disk ctx now payload = elim (Result-cases (decode_heartbeat payload)) [
  | inl (e, bad) ↦ rw (bad, handle_heartbeat) (Refines-nothing ctx.state ctx.state refl)
  | inr (hb, good) ↦
      rw (good, handle_heartbeat)
        (if_either (λ (p : GateCtx × Option Reply). Refines ctx.state p.0.state []) _
          (Refines-nothing ctx.state ctx.state refl)
          (subst
            (λ s.
              Refines s (evaluate_promotion_locked disk (note_heartbeat ctx hb now) now).state [])
            (note_heartbeat-state ctx hb now)
            (evaluate-Refines disk (note_heartbeat ctx hb now) now)))
]

handle_frame-Refines :
    (ctx : GateCtx) (f : Frame) → Refines ctx.state (handle_frame ctx f).0.state (accepted_by ctx f)
unfolding handle_frame handle_status_query
handle_frame-Refines ctx f = elim (Bool-cases (f.msg_type == msg_result_publish)) [
  | inl published ↦
      let not_heartbeat : (f.msg_type == msg_heartbeat) ≡ false = ground (arith, published) in
      rw (not_heartbeat, published) (publish-Refines ctx f published)
  | inr other ↦
      let quiet = λ (t : GateState) (g : Refines ctx.state t []).
        subst (Refines ctx.state t) (sym (accepted_by_other ctx f other)) g in
      rw other (
        if_either (λ (p : GateCtx × Option Reply). Refines ctx.state p.0.state (accepted_by ctx f))
          _ (quiet _ (heartbeat-Refines f.disk ctx f.now f.payload))
          (if_either
            (λ (p : GateCtx × Option Reply). Refines ctx.state p.0.state (accepted_by ctx f)) _
            (quiet _ (Refines-nothing ctx.state ctx.state refl))
            (quiet _ (Refines-nothing ctx.state ctx.state refl))))
]

Refines-trans :
    (s t u : GateState) (rs ts : List FusionResult)
    → Refines s t rs
    → Refines t u ts
    → Refines s u (rs ++ ts)
Refines-trans s t u rs ts (es, e, sub) (fs, f, more) = (
  es ++ fs,
  f ∙ ap (λ x. run_events x fs) e ∙ sym (run_events-append s es fs),
  subst (Sublist (rs ++ ts)) (sym (commits-append s es fs))
      (Sublist-append sub (subst (λ x. Sublist ts (commits x fs)) e more)),
)

-- Whatever frames come in, the gate's state is what some sequence of decisions and promotions makes of it, and
-- the results that brokers are told were accepted are among those that it commits, in its order.
pub run_frames-Refines :
    (ctx : GateCtx) (fs : List Frame)
    → (es : List GateEvent) × ((run_frames ctx fs).state ≡ run_events ctx.state es)
      × Sublist (accepted ctx fs) (commits ctx.state es)
unfolding run_frames accepted
run_frames-Refines ctx [] = Refines-nothing ctx.state ctx.state refl
run_frames-Refines ctx (f ∷ fs) =
    Refines-trans ctx.state _ _ _ _ (handle_frame-Refines ctx f)
      (run_frames-Refines (handle_frame ctx f).0 fs)

-- From a state that is well formed, whatever frames come in, the windows of a pipeline that brokers are told were
-- accepted strictly increase, from above the last one that was committed before: no window is accepted
-- twice.
pub accepted-Increasing :
    (ctx : GateCtx) (fs : List Frame) (id : List ℕ)
    → IsGateState ctx.state
    → Increasing (high_water ctx.state id) (windows id (accepted ctx fs))
accepted-Increasing ctx fs id w =
    let (es, e, sub) = run_frames-Refines ctx fs in
    Sublist-Increasing sub id (high_water ctx.state id) (commits-Increasing es ctx.state id w)
