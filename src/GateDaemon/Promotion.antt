-- ===== src/GateDaemon/Promotion.antt =====
-- src/gate/gate_main.c: the promotion of a broker on a heartbeat.
use obicall.Common.{
  ℕ, ◌≡◌, ◌≢◌, refl, ap, ◌∙◌, ◌⊎◌, inl, inr, true, not, ◌&&◌, List, [], ◌∷◌, arith, ltb, ◌==◌,
  if◌then◌else◌, take, ℤ, ◌-ℤ◌, ◌<ℤ◌, leb_ℤ,
}
use obicall.Gate.Promote.{
  PromotionRequirements, promote, shadow_promotable, IsPromotable, shadow_promotable-IsPromotable,
}
use obicall.Gate.State.{PipelineState, GateState, broker_none}
use obicall.GateDaemon.Context.{
  broker_a, broker_b, BrokerView, GateCtx, Disk, persist_locked, persist_locked-state,
}

-- The highest of the last committed windows and `mark`.
unfoldable pub highest_window : List PipelineState → ℕ → ℕ
highest_window [] mark = mark
highest_window (p ∷ ps) mark =
    highest_window ps
      (if ltb mark p.last_committed_window_seq then p.last_committed_window_seq else mark)

unfoldable pub committed_high_water : GateState → ℕ
committed_high_water state = highest_window (take state.pipeline_count state.pipelines) 0

-- `&g_ctx.brokers[id]`, for the two brokers.
abbrev pub view_of : GateCtx → ℕ → BrokerView
view_of ctx id = if id == broker_a then ctx.view_a else ctx.view_b

abbrev pub other_broker : ℕ → ℕ
other_broker owner = if owner == broker_a then broker_b else broker_a

abbrev pub requirements : GateCtx → PromotionRequirements
requirements ctx = record {
  required_config_digest = ctx.required_config_digest;
  required_checkpoint_schema_version = ctx.required_checkpoint_schema_version;
  max_allowed_replay_gap = ctx.max_allowed_replay_gap;
}

-- The grant to a broker, and the attempt to store it, whose result is not looked at.
unfoldable pub grant : Disk → GateCtx → ℕ → ℤ → GateCtx
grant disk ctx broker now =
    let promoted = record ctx { state = (promote ctx.state broker now).0 } in
    (persist_locked disk promoted).0

-- The differences of times are taken not to overflow.
unfoldable pub evaluate_promotion_locked : Disk → GateCtx → ℤ → GateCtx
evaluate_promotion_locked disk ctx now =
    let owner = ctx.state.owner_broker_id in
    let ov = view_of ctx owner in
    let other = other_broker owner in
    let sv = view_of ctx other in
    if owner == broker_none
    then (if ctx.view_a.known && not (ctx.view_a.readiness.healthy == 0)
        then grant disk ctx broker_a now
        else ctx)
    else if not ov.known
    then ctx
    else if leb_ℤ (now -ℤ ov.last_heartbeat_ns) ctx.confirm_timeout_ns
    then ctx
    else if not sv.known
    then ctx
    else if shadow_promotable sv.readiness (requirements ctx) (committed_high_water ctx.state)
    then grant disk ctx other now
    else ctx

-- Why a broker was granted the ownership.
pub data Reason (ctx : GateCtx) (now : ℤ) : ℕ → Type 0 where
  bootstrap :
      {broker : ℕ}
      → broker ≡ broker_a
      → ctx.state.owner_broker_id ≡ broker_none
      → ctx.view_a.known ≡ true
      → ctx.view_a.readiness.healthy ≢ 0
      → Reason ctx now broker
  takeover :
      {broker : ℕ}
      → broker ≡ other_broker ctx.state.owner_broker_id
      → ctx.state.owner_broker_id ≢ broker_none
      → ctx.confirm_timeout_ns <ℤ (now -ℤ (view_of ctx ctx.state.owner_broker_id).last_heartbeat_ns)
      → (view_of ctx broker).known ≡ true
      → IsPromotable
          (view_of ctx broker).readiness
          (requirements ctx)
          (committed_high_water ctx.state)
      → Reason ctx now broker

grant-state :
    (disk : Disk) (ctx : GateCtx) (broker : ℕ) (now : ℤ)
    → (grant disk ctx broker now).state ≡ (promote ctx.state broker now).0
unfolding grant
grant-state disk ctx broker now =
    persist_locked-state disk (record ctx { state = (promote ctx.state broker now).0 })

evaluate_cases :
    (disk : Disk) (ctx : GateCtx) (now : ℤ) (owner other : ℕ) (ov sv : BrokerView)
    → owner ≡ ctx.state.owner_broker_id
    → ov ≡ view_of ctx owner
    → other ≡ other_broker owner
    → sv ≡ view_of ctx other
    → (evaluate_promotion_locked disk ctx now ≡ ctx)
      ⊎ ((owner ≡ broker_none)
          × (ctx.view_a.known ≡ true)
          × (ctx.view_a.readiness.healthy ≢ 0)
          × (evaluate_promotion_locked disk ctx now ≡ grant disk ctx broker_a now))
      ⊎ ((owner ≢ broker_none)
          × (ctx.confirm_timeout_ns <ℤ (now -ℤ ov.last_heartbeat_ns))
          × (sv.known ≡ true)
          × (shadow_promotable sv.readiness (requirements ctx) (committed_high_water ctx.state)
              ≡ true)
          × (evaluate_promotion_locked disk ctx now ≡ grant disk ctx other now))
unfolding evaluate_promotion_locked
evaluate_cases disk ctx now owner other ov sv e f g h = ground arith

-- A heartbeat leaves the gate's state as it is, or grants the ownership in the next epoch: to broker A where
-- there is no owner and A is known and healthy, or to the other broker where the owner was silent for longer than the
-- timeout and the other one is known and promotable.
pub evaluate_promotion_locked-Reason :
    (disk : Disk) (ctx : GateCtx) (now : ℤ)
    → ((evaluate_promotion_locked disk ctx now).state ≡ ctx.state)
      ⊎ ((broker : ℕ) × Reason ctx now broker
          × ((evaluate_promotion_locked disk ctx now).state ≡ (promote ctx.state broker now).0))
evaluate_promotion_locked-Reason disk ctx now =
    elim (evaluate_cases disk ctx now _ _ _ _ refl refl refl refl) [
      | inl same ↦ inl (ap (λ c. c.state) same)
      | inr (inl (no_owner, known, healthy, e)) ↦ inr (
        broker_a,
        bootstrap refl no_owner known healthy,
        ap (λ c. c.state) e ∙ grant-state disk ctx broker_a now,
      )
      | inr (inr (owned, silent, known, promotable, e)) ↦
          let other = other_broker ctx.state.owner_broker_id in
          inr (
            other,
            takeover refl owned silent known (shadow_promotable-IsPromotable _ _ _ promotable),
            ap (λ c. c.state) e ∙ grant-state disk ctx other now,
          )
    ]
