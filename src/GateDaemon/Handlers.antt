-- ===== src/GateDaemon/Handlers.antt =====
-- src/gate/gate_main.c: the answers to a heartbeat, to a submitted result and to a query.
use obicall.Common.{
  ℕ, Bool, true, not, ◌&&◌, List, Option, none, some, ◌==◌, if◌then◌else◌, ℤ, pos, ◌-ℤ◌,
}
use obicall.Common.Text.{strncpy}
use obicall.FusionResult.{FusionResult, pipeline_id_len}
use obicall.Gate.HighWater.{is_commit}
use obicall.Gate.Publish.{decide_publish}
use obicall.Gate.State.{
  PublishOutcome, commit, shadow_recorded, reject_not_owner, reject_stale_epoch,
  reject_duplicate_window, reject_expired, reject_incompatible, reject_no_capacity,
}
use obicall.GateDaemon.Context.{broker_a, broker_b, BrokerView, GateCtx, Disk, persist_locked}
use obicall.GateDaemon.Promotion.{committed_high_water, evaluate_promotion_locked}
use obicall.Status.{
  ok, err, gate_persistence, gate_not_owner, gate_stale_epoch, gate_duplicate_window, gate_expired,
  gate_incompatible, internal,
}
use obicall.StatusCode.{status_code}
use obicall.Wire.Control.Heartbeat.{Heartbeat, decode_heartbeat}
use obicall.Wire.Control.ResultAck.{ResultAck}
use obicall.Wire.Control.StatusReply.{StatusReply}
use obicall.Wire.FusionResult.{decode_result}

-- The message that is sent back. Its encoding fits the handlers' buffers.
pub data Reply : Type 0 where
  status_reply : StatusReply → Reply
  result_ack : ResultAck → Reply

unfoldable pub status_of : GateCtx → ℤ → StatusReply
status_of ctx now = record {
  running = 1;
  gate_epoch = ctx.state.epoch;
  owner_broker_id = ctx.state.owner_broker_id;
  last_committed_window_seq = committed_high_water ctx.state;
  uptime_ns = now -ℤ ctx.start_time_ns;
}

abbrev pub seen_view : Heartbeat → ℤ → BrokerView
seen_view hb now = record {
  known = true;
  readiness = record {
    healthy = hb.healthy;
    config_digest = hb.config_digest;
    checkpoint_schema_version = hb.checkpoint_schema_version;
    last_processed_window_seq = hb.last_window_seq;
  };
  last_heartbeat_ns = now;
}

unfoldable pub note_heartbeat : GateCtx → Heartbeat → ℤ → GateCtx
note_heartbeat ctx hb now =
    if hb.broker_id == broker_a
    then record ctx { view_a = seen_view hb now }
    else record ctx { view_b = seen_view hb now }

-- A frame that is not answered leaves the context as it is.
unfoldable pub handle_heartbeat : Disk → GateCtx → ℤ → List ℕ → GateCtx × Option Reply
handle_heartbeat disk ctx now payload = elim (decode_heartbeat payload) [
  | err e ↦ (ctx, none)
  | ok hb ↦
      let after = evaluate_promotion_locked disk (note_heartbeat ctx hb now) now in
      if not (hb.broker_id == broker_a) && not (hb.broker_id == broker_b)
      then (ctx, none)
      else (after, some (status_reply (status_of after now)))
]

-- `ack.reject_status`, where 0 is `OBICALL_OK`.
unfoldable pub reject_status : PublishOutcome → Bool → ℕ
reject_status commit persisted_ok = if persisted_ok then 0 else status_code gate_persistence
reject_status shadow_recorded persisted_ok = 0
reject_status reject_not_owner persisted_ok = status_code gate_not_owner
reject_status reject_stale_epoch persisted_ok = status_code gate_stale_epoch
reject_status reject_duplicate_window persisted_ok = status_code gate_duplicate_window
reject_status reject_expired persisted_ok = status_code gate_expired
reject_status reject_incompatible persisted_ok = status_code gate_incompatible
reject_status reject_no_capacity persisted_ok = status_code internal

-- The context with the decision's state, and stored if the result was committed.
unfoldable pub publish_locked : Disk → GateCtx → ℤ → FusionResult → GateCtx × Bool
publish_locked disk ctx now r =
    let published = decide_publish ctx.state r now in
    let decided = record ctx { state = published.state } in
    if is_commit published.outcome then persist_locked disk decided else (decided, true)

unfoldable pub ack_of : FusionResult → PublishOutcome → Bool → ResultAck
ack_of r outcome persisted_ok = record {
  pipeline_id = strncpy pipeline_id_len r.pipeline_id;
  window_seq = r.window_seq;
  accepted = if is_commit outcome && persisted_ok then 1 else 0;
  reject_status = pos (reject_status outcome persisted_ok);
}

unfoldable pub handle_result : Disk → GateCtx → ℤ → FusionResult → GateCtx × ResultAck
handle_result disk ctx now r =
    let after = publish_locked disk ctx now r in
    (after.0, ack_of r (decide_publish ctx.state r now).outcome after.1)

unfoldable pub handle_result_publish : Disk → GateCtx → ℤ → List ℕ → GateCtx × Option Reply
handle_result_publish disk ctx now payload = elim (decode_result payload) [
  | err e ↦ (ctx, none)
  | ok r ↦ let handled = handle_result disk ctx now r in (handled.0, some (result_ack handled.1))
]

unfoldable pub handle_status_query : GateCtx → ℤ → GateCtx × Option Reply
handle_status_query ctx now = (ctx, some (status_reply (status_of ctx now)))

abbrev pub msg_heartbeat : ℕ
msg_heartbeat = 2

abbrev pub msg_result_publish : ℕ
msg_result_publish = 6

abbrev pub msg_status_query : ℕ
msg_status_query = 15

-- A frame that a connection received, when it was handled and what the disk did then.
pub record Frame : Type 0 where
  pub msg_type : ℕ
  pub payload : List ℕ
  pub now : ℤ
  pub disk : Disk

-- The `switch` in `connection_thread`.
unfoldable pub handle_frame : GateCtx → Frame → GateCtx × Option Reply
handle_frame ctx f =
    if f.msg_type == msg_heartbeat
    then handle_heartbeat f.disk ctx f.now f.payload
    else if f.msg_type == msg_result_publish
    then handle_result_publish f.disk ctx f.now f.payload
    else if f.msg_type == msg_status_query
    then handle_status_query ctx f.now
    else (ctx, none)
