-- ===== src/Gate/Tests.antt =====
-- Runs of the commit gate.
use obicall.Common.Marks.{Increasing}
use obicall.Common.{
  All, All-replicate, ℕ, ◌≡◌, refl, true, false, List, [], ◌∷◌, ◌++◌, arith, replicate, take, drop,
  pos,
}
use obicall.Common.Device.{Device}
use obicall.Cursor.Octets.{IsByte, octets}
use obicall.Cursor.Write.{wc_u32, wc_u64, wc_bytes, wc_each, block, encode_with, encoded}
use obicall.Cursor.Writes.{fields, each_field}
use obicall.Digest.Crc32.{crc32}
use obicall.FusionResult.Sample.{track}
use obicall.Gate.State.{GateState, IsGateState, blank_pipeline}
use obicall.Gate.Publish.{double_bytes, compute_result_digest, decide_publish, find_pipeline}
use obicall.Gate.Promote.{
  Readiness, PromotionRequirements, IsPromotable, shadow_promotable, IsPromotable-shadow_promotable,
  promote,
}
use obicall.Digest.Sha256.{sha256}
use obicall.Gate.Fingerprint.{compute_result_digest_lem}
use obicall.Gate.Marks.{marks, high_water}
use obicall.Gate.HighWater.{is_commit, Decided}
use obicall.Gate.Decision.{decide_publish-is_commit, decide_publish-Decided, promote-decide_publish}
use obicall.Gate.Run.{
  GateEvent, submit, promote_to, commits, windows, From, OneOwner, commits-Increasing,
  commits-OneOwner,
}
use obicall.Gate.Codec.{
  IsGateWords, IsPipelineState, restored, gate_layout, gate_writers, encode_state,
}
use obicall.Gate.Persist.{persist_state, load_state, persist_writers, persist_layout}
use obicall.Gate.Restore.{load-persist_state, load_state_corrupt, load_state_cut}
use obicall.Status.{ok, err, wire_malformed, wire_checksum}

abbrev owned : GateState
owned = record {
  struct_size = 664;
  schema_version = 1;
  epoch = 3;
  owner_broker_id = 1;
  pipeline_count = 0;
  pipelines = replicate 8 blank_pipeline;
}

owned-IsGateState : IsGateState owned
owned-IsGateState = record { count_fits = omega arith; slots = refl }

decide_publish-is_commit_example : is_commit (decide_publish owned track (pos 1500)).outcome ≡ true
unfolding find_pipeline high_water marks
decide_publish-is_commit_example = decide_publish-is_commit owned track (pos 1500) owned-IsGateState

decide_publish-Decided_example : Decided owned track (decide_publish owned track (pos 1500))
decide_publish-Decided_example = decide_publish-Decided owned track (pos 1500) owned-IsGateState

promote-decide_publish_example :
    is_commit (decide_publish (promote owned 2 (pos 1500)).0 track (pos 1500)).outcome ≡ false
unfolding find_pipeline high_water marks
promote-decide_publish_example = promote-decide_publish owned 2 track (pos 1500) owned-IsGateState

abbrev calls : List GateEvent
calls = submit track (pos 1500) ∷ promote_to 2 (pos 1600) ∷ submit track (pos 1700) ∷ []

commits-Increasing_example :
    Increasing
      (high_water owned track.pipeline_id)
      (windows track.pipeline_id (commits owned calls))
commits-Increasing_example = commits-Increasing calls owned track.pipeline_id owned-IsGateState

commits-OneOwner_example : All (From 3 1) (commits owned calls) × OneOwner (commits owned calls)
commits-OneOwner_example = commits-OneOwner calls owned owned-IsGateState (omega arith)

abbrev shadow : Readiness
shadow = record {
  healthy = 1;
  config_digest = replicate 32 2;
  checkpoint_schema_version = 1;
  last_processed_window_seq = 10;
}

abbrev requirements : PromotionRequirements
requirements = record {
  required_config_digest = replicate 32 2;
  required_checkpoint_schema_version = 1;
  max_allowed_replay_gap = 2;
}

shadow-IsPromotable : IsPromotable shadow requirements 12
shadow-IsPromotable = record {
  is_healthy = ground arith;
  same_config = refl;
  same_schema = refl;
  caught_up = omega arith;
}

shadow_is_promotable : shadow_promotable shadow requirements 12 ≡ true
shadow_is_promotable =
    IsPromotable-shadow_promotable shadow requirements 12 (omega arith) shadow-IsPromotable

owned-IsGateWords : IsGateWords owned
owned-IsGateWords = record {
  struct_size_word = omega arith;
  schema_version_word = omega arith;
  epoch_word = omega arith;
  owner_word = omega arith;
  count_word = omega arith;
  slots = refl;
  pipelines_words = All-replicate IsPipelineState 8 blank_pipeline (record {
    pipeline_id_length = refl;
    has_committed_word = omega arith;
    last_window_word = omega arith;
    digest_length = refl;
    pipeline_id_bytes = All-replicate IsByte 32 0 (omega arith);
    digest_bytes = All-replicate IsByte 32 0 (omega arith);
  });
}

abbrev working : Device
working = record { header_written = true; payload_written = true; flushed = true; synced = true }

abbrev payload : List ℕ
payload = gate_layout owned

abbrev file : List ℕ
file = persist_layout 24 (crc32 payload) ++ payload

owned-stored : persist_state working owned ≡ ok file
unfolding persist_state encode_state encode_with encoded block gate_writers persist_writers
    gate_layout persist_layout wc_u32 wc_u64 wc_bytes wc_each octets fields each_field
owned-stored = refl

load-persist_state_example : load_state (file ++ (1 ∷ [])) ≡ ok (restored owned)
load-persist_state_example =
    load-persist_state working owned owned-IsGateWords file owned-stored (1 ∷ [])

load_state_corrupt_example : load_state (take 16 file ++ (replicate 24 0 ++ [])) ≡ err wire_checksum
unfolding gate_layout persist_layout octets fields each_field crc32
load_state_corrupt_example =
    load_state_corrupt working owned owned-IsGateWords file owned-stored (replicate 24 0) [] refl
      (ground arith)

load_state_cut_example : load_state (0x54 ∷ 0x47 ∷ []) ≡ err wire_malformed
unfolding gate_layout persist_layout octets fields each_field
load_state_cut_example =
    load_state_cut working owned owned-IsGateWords file owned-stored (0x54 ∷ 0x47 ∷ [])
      (drop 3 file) 0x42 refl

compute_result_digest_lem_example :
    compute_result_digest track
    ≡ sha256 (
        octets 4 0
        ++ octets 4 1
        ++ double_bytes (0x3FF0000000000000 ∷ [])
        ++ octets 4 1
        ++ double_bytes (0x3FE0000000000000 ∷ []))
compute_result_digest_lem_example = compute_result_digest_lem track
