-- ===== src/GateDaemon/Tests.antt =====
-- Runs of the gate's process.
use obicall.Common.Marks.{Increasing}
use obicall.Common.{
  All-replicate, ℕ, ◌≡◌, refl, ap, ◌∙◌, ◌⊎◌, true, List, [], ◌∷◌, some, arith, replicate, pos,
  if◌then◌else◌,
}
use obicall.Cursor.Octets.{IsByte}
use obicall.FusionResult.Sample.{track}
use obicall.Gate.Codec.{IsGateWords, IsPipelineState}
use obicall.Gate.Decision.{decide_publish-is_commit}
use obicall.Gate.HighWater.{is_commit}
use obicall.Gate.Marks.{marks, high_water}
use obicall.Gate.Persist.{load_state}
use obicall.Gate.Promote.{Readiness, promote}
use obicall.Gate.Publish.{decide_publish, find_pipeline}
use obicall.Gate.Run.{GateEvent, commits, windows}
use obicall.Gate.State.{GateState, IsGateState, blank_pipeline}
use obicall.Gate.Words.{IsSubmission}
use obicall.GateDaemon.Context.{GateCtx, Disk}
use obicall.GateDaemon.Durable.{handle_result-is_commit, accepted-load_state}
use obicall.GateDaemon.Handlers.{Frame, handle_result}
use obicall.GateDaemon.Promotion.{
  Reason, evaluate_promotion_locked, evaluate_promotion_locked-Reason,
}
use obicall.GateDaemon.Run.{
  run_frames, accepted, run_events, run_frames-Refines, accepted-Increasing,
}
use obicall.GateDaemon.Sublist.{Sublist}
use obicall.Status.{ok}
use obicall.Wire.FusionResult.{result_layout}

abbrev owned : GateState
owned = record {
  struct_size = 664;
  schema_version = 1;
  epoch = 3;
  owner_broker_id = 1;
  pipeline_count = 0;
  pipelines = replicate 8 blank_pipeline;
}

owned-IsGateState : IsGateState owned
owned-IsGateState = record { count_fits = omega arith; slots = refl }

owned-IsGateWords : IsGateWords owned
owned-IsGateWords = record {
  struct_size_word = omega arith;
  schema_version_word = omega arith;
  epoch_word = omega arith;
  owner_word = omega arith;
  count_word = omega arith;
  slots = refl;
  pipelines_words = All-replicate IsPipelineState 8 blank_pipeline (record {
    pipeline_id_length = refl;
    has_committed_word = omega arith;
    last_window_word = omega arith;
    digest_length = refl;
    pipeline_id_bytes = All-replicate IsByte 32 0 (omega arith);
    digest_bytes = All-replicate IsByte 32 0 (omega arith);
  });
}

track-IsSubmission : IsSubmission track
track-IsSubmission = record {
  id_length = refl;
  id_bytes = All-replicate IsByte 32 0x70 (omega arith);
  window_word = omega arith;
}

-- Broker B is ready, and broker A was last heard of at 1000.
abbrev ready : Readiness
ready = record {
  healthy = 1;
  config_digest = replicate 32 2;
  checkpoint_schema_version = 1;
  last_processed_window_seq = 10;
}

abbrev ctx : GateCtx
ctx = record {
  state = owned;
  view_a = record { known = true; readiness = ready; last_heartbeat_ns = pos 1000 };
  view_b = record { known = true; readiness = ready; last_heartbeat_ns = pos 1400 };
  file = [];
  required_config_digest = replicate 32 2;
  required_checkpoint_schema_version = 1;
  max_allowed_replay_gap = 2;
  confirm_timeout_ns = pos 300;
  start_time_ns = pos 0;
}

abbrev disk : Disk
disk = record {
  opened = true;
  device = record { header_written = true; payload_written = true; flushed = true; synced = true };
  replaced = true;
}

evaluate_promotion_locked-Reason_example :
    ((evaluate_promotion_locked disk ctx (pos 1500)).state ≡ ctx.state)
    ⊎ ((broker : ℕ) × Reason ctx (pos 1500) broker
        × ((evaluate_promotion_locked disk ctx (pos 1500)).state
            ≡ (promote ctx.state broker (pos 1500)).0))
evaluate_promotion_locked-Reason_example = evaluate_promotion_locked-Reason disk ctx (pos 1500)

-- A result of the owner, which it sends twice.
abbrev frame : Frame
frame = record { msg_type = 6; payload = result_layout track; now = pos 1500; disk = disk }

abbrev frames : List Frame
frames = frame ∷ frame ∷ []

run_frames-Refines_example :
    (es : List GateEvent) × ((run_frames ctx frames).state ≡ run_events owned es)
    × Sublist (accepted ctx frames) (commits owned es)
run_frames-Refines_example = run_frames-Refines ctx frames

accepted-Increasing_example :
    Increasing
      (high_water owned track.pipeline_id)
      (windows track.pipeline_id (accepted ctx frames))
accepted-Increasing_example = accepted-Increasing ctx frames track.pipeline_id owned-IsGateState

track_commits : is_commit (decide_publish owned track (pos 1500)).outcome ≡ true
unfolding find_pipeline high_water marks
track_commits = decide_publish-is_commit owned track (pos 1500) owned-IsGateState

handle_result-is_commit_example :
    (handle_result disk ctx (pos 1500) track).1.accepted
    ≡ (if is_commit (decide_publish owned track (pos 1500)).outcome then 1 else 0)
handle_result-is_commit_example =
    handle_result-is_commit disk ctx (pos 1500) track owned-IsGateState owned-IsGateWords
      track-IsSubmission refl

track_accepted : (handle_result disk ctx (pos 1500) track).1.accepted ≡ 1
track_accepted =
    handle_result-is_commit disk ctx (pos 1500) track owned-IsGateState owned-IsGateWords
      track-IsSubmission refl
    ∙ ap (λ b. if b then 1 else 0) track_commits

accepted-load_state_example :
    (s : GateState) × (load_state (handle_result disk ctx (pos 1500) track).0.file ≡ ok s)
    × (high_water s track.pipeline_id ≡ some 12)
    × (s.epoch ≡ 3)
    × (s.owner_broker_id ≡ 1)
accepted-load_state_example =
    accepted-load_state disk ctx (pos 1500) track owned-IsGateState owned-IsGateWords
      track-IsSubmission track_accepted
