-- ===== src/JournalDaemon/Tests.antt =====
-- Runs of the journal's process.
use obicall.Common.{
  ℕ, ◌+◌, ◌%◌, ◌≤◌, ◌<◌, ◌⊎◌, ◌≡◌, refl, true, false, List, [], ◌∷◌, none, arith, replicate, pos,
}
use obicall.JournalDaemon.Replay.{start_cursor, start_subscription, report_cursor}
use obicall.JournalDaemon.Ring.{IsJournal, conns-IsJournal, handle_submission-Grown}
use obicall.JournalDaemon.State.{ring_capacity, RingEntry, JournalState, Writing}
use obicall.JournalDaemon.Subscription.{
  Step, submission, round, report, reads, InTime, Consecutive, subscription-Consecutive,
}
use obicall.Observation.Validate.Sample.{coarse, range}
use obicall.Wire.Observation.{observation_layout}

-- The entry of a window that was given: window 1 is the last one.
abbrev entry_of : ℕ → RingEntry
entry_of w = record { window_seq = w; admission_reason = 0; obs = range }

abbrev started : JournalState
started = record {
  pipeline_id = replicate 32 0x70;
  cfg = record {
    reorder_window_n = 3;
    max_lateness_ns = pos 100;
    max_pending_per_pipeline = 4;
    overflow_policy = 0;
  };
  tracks = [];
  ring = entry_of;
  ring_head = 1;
  next_window_seq = 2;
  conns = record { in_use = true; role = 2; next_seq_to_send = 0; caught_up = false } ∷ [];
  segment_file = none;
}

started-IsJournal : IsJournal started
started-IsJournal = record { next_is = refl; retained = λ w one le kept. omega arith }

abbrev writing : Writing
writing = record {
  now_ns = pos 1000;
  device = record { header_written = true; payload_written = true; flushed = true; synced = true };
  left = [];
}

-- A worker submits an observation, and the broker's thread looks once and reports its cursor.
abbrev steps : List Step
steps = submission writing 3 (observation_layout range) ∷ round (pos 1100) ∷ report ∷ []

steps-InTime :
    InTime coarse (start_subscription started 0 0).0 (start_subscription started 0 0).1 steps
unfolding start_subscription start_cursor report_cursor
steps-InTime =
    let st = (start_subscription started 0 0).0 in
    let (next, grown, most) =
      handle_submission-Grown coarse writing st 3 (observation_layout range) (omega arith)
        (conns-IsJournal started st.conns started-IsJournal) in
    (omega arith, tt)

subscription-Consecutive_example :
    (1 ≤ start_cursor started 0)
    × (1 < start_cursor started 0 + ring_capacity)
    × ((1 < start_cursor started 0)
        ⊎ ((started.ring (start_cursor started 0 % ring_capacity)).window_seq
            ≡ start_cursor started 0))
    × Consecutive coarse
        (start_cursor started 0)
        (reads coarse (start_subscription started 0 0).0 (start_subscription started 0 0).1 steps)
subscription-Consecutive_example =
    subscription-Consecutive coarse started 0 0 steps started-IsJournal (omega arith) steps-InTime
