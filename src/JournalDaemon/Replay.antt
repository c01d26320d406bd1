-- ===== src/JournalDaemon/Replay.antt =====
-- src/journal/journal_main.c: what a subscribed broker is sent of the ring.
use obicall.Common.{
  ℕ, ◌+◌, ◌-◌, ◌%◌, ◌^◌, true, false, get_elem?, set, ◌&&◌, List, [], ◌∷◌, Option, none, some, ltb,
  leb, ◌==◌, if◌then◌else◌, ℤ,
}
use obicall.Common.Text.{strncpy}
use obicall.FusionResult.{pipeline_id_len}
use obicall.JournalDaemon.State.{ring_capacity, RingEntry, ConnSlot, JournalState}
use obicall.Observation.{sensor_id_len}
use obicall.Status.{ok, err}
use obicall.Wire.Control.AdmissionDecision.{AdmissionDecision}
use obicall.Wire.Observation.{encode_observation}

-- Where a broker that asks for the windows from one on is started.
unfoldable pub start_cursor : JournalState → ℕ → ℕ
start_cursor st from_window_seq =
    let cursor = if ltb from_window_seq 1 then 1 else from_window_seq in
    let past_head = (st.ring_head + 1) % 2 ^ 64 in
    let oldest_available = if ltb ring_capacity past_head then past_head - ring_capacity else 1 in
    if ltb cursor oldest_available then oldest_available else cursor

-- `entry`, if `has_more`.
unfoldable pub next_entry : JournalState → ℕ → Option RingEntry
next_entry st cursor =
    if leb 1 cursor && leb cursor st.ring_head
    then some (st.ring (cursor % ring_capacity))
    else none

pub data Sent : Type 0 where
  replay_data : List ℕ → Sent
  admission_decision : AdmissionDecision → Sent
  replay_end : Sent

unfoldable pub decision_of : JournalState → RingEntry → ℤ → AdmissionDecision
decision_of st e now = record {
  pipeline_id = strncpy pipeline_id_len st.pipeline_id;
  window_seq = e.window_seq;
  sensor_id = strncpy sensor_id_len e.obs.sensor_id;
  sequence = e.obs.sequence;
  admitted = if e.admission_reason == 0 then 1 else 0;
  reason_code = e.admission_reason;
  decided_at_ns = now;
}

-- An observation that does not fit the buffer is left out.
unfoldable pub send_ring_entry : JournalState → RingEntry → ℤ → List Sent
send_ring_entry st e now = elim (encode_observation e.obs 1200) [
  | err e' ↦ []
  | ok buf ↦ replay_data buf ∷ admission_decision (decision_of st e now) ∷ []
]

-- What the thread of a subscription keeps: the index of its slot, and its cursor.
pub record Subscription : Type 0 where
  pub slot : ℕ
  pub cursor : ℕ

-- `conns[i]`, which is not in use outside the table.
abbrev pub conn_at : List ConnSlot → ℕ → ConnSlot
conn_at conns i = elim (get_elem? conns i) [
  | none ↦ record { in_use = false; role = 0; next_seq_to_send = 0; caught_up = false }
  | some c ↦ c
]

-- `slot->next_seq_to_send = cursor`, under the mutex.
unfoldable pub report_cursor : JournalState → Subscription → JournalState
report_cursor st s = record st {
  conns = set st.conns s.slot (record (conn_at st.conns s.slot) { next_seq_to_send = s.cursor });
}

unfoldable pub start_subscription : JournalState → ℕ → ℕ → JournalState × Subscription
start_subscription st slot from_window_seq =
    let s : Subscription = record { slot = slot; cursor = start_cursor st from_window_seq } in
    (report_cursor st s, s)

unfoldable pub mark_caught_up : JournalState → ℕ → JournalState
mark_caught_up st slot = record st {
  conns = set st.conns slot (record (conn_at st.conns slot) { caught_up = true });
}

-- One round of the loop in `handle_broker_connection`, up to `cursor++`: what is read of the ring is read
-- under the mutex. The thread reports its cursor afterwards, and others may come between.
unfoldable pub broker_round :
    JournalState → Subscription → ℤ → JournalState × Subscription × List Sent
broker_round st s now = elim (next_entry st s.cursor) [
  | none ↦
      if (conn_at st.conns s.slot).caught_up
      then (st, s, [])
      else (mark_caught_up st s.slot, s, replay_end ∷ [])
  | some e ↦ (st, record s { cursor = (s.cursor + 1) % 2 ^ 64 }, send_ring_entry st e now)
]
