-- ===== src/JournalDaemon/Ring.antt =====
-- src/journal/journal_main.c: the ring keeps the last windows, and a broker is sent them in order.
use obicall.Common.{
  ℕ, ◌+◌, ◌%◌, ◌^◌, ◌≤◌, ◌<◌, ◌≡◌, ◌≢◌, refl, ap, inl, inr, true, false, List, arith, ◌==◌,
  if_either, Bool-cases, Option-cases,
}
use obicall.Journal.Admit.{SensorTrack}
use obicall.JournalDaemon.State.{ring_capacity, RingEntry, ConnSlot, JournalState, Writing}
use obicall.JournalDaemon.Submit.{
  find_or_create_track, admit_to, admit_locked, handle_submission, msg_observation_submit, store,
}
use obicall.Observation.{Observation}
use obicall.Observation.Doubles.{Arithmetic}
use obicall.Status.{Result-cases}
use obicall.Wire.Observation.{decode_observation}

-- The ring holds the last windows, each in its slot.
pub record IsJournal (st : JournalState) : Type 0 where
  pub next_is : st.next_window_seq ≡ st.ring_head + 1
  pub retained :
      (w : ℕ)
      → 1 ≤ w
      → w ≤ st.ring_head
      → st.ring_head < w + ring_capacity
      → (st.ring (w % ring_capacity)).window_seq ≡ w

-- Two windows less than the capacity apart are in two slots.
slots_differ :
    (w next : ℕ)
    → w < next
    → next < w + ring_capacity
    → (w % ring_capacity == next % ring_capacity) ≡ false
slots_differ w next less near =
    let apart : w % ring_capacity ≢ next % ring_capacity = λ e. omega arith in ground arith

store-retained :
    (ring : ℕ → RingEntry) (next : ℕ) (entry : RingEntry) (w : ℕ)
    → entry.window_seq ≡ next
    → (w < next → (ring (w % ring_capacity)).window_seq ≡ w)
    → w ≤ next
    → next < w + ring_capacity
    → (store ring (next % ring_capacity) entry (w % ring_capacity)).window_seq ≡ w
store-retained ring next entry w named before le kept = elim (Bool-cases (w == next)) [
  | inl last ↦
      let e : w ≡ next = ground (arith, last) in
      let slot : (w % ring_capacity == next % ring_capacity) ≡ true =
        ground (arith, ap (λ (x : ℕ). x % ring_capacity) e) in
      ground (arith, slot, named, e)
  | inr other ↦
      let less : w < next = ground (arith, other) in
      ground (arith, slots_differ w next less kept, before less)
]

admit_to-IsJournal :
    (arithmetic : Arithmetic) (w : Writing) (st : JournalState) (obs : Observation)
    (tracks : List SensorTrack) (i : ℕ)
    → st.ring_head + 2 < 2 ^ 64
    → IsJournal st
    → IsJournal (admit_to arithmetic w st obs tracks i).0
unfolding admit_to
admit_to-IsJournal arithmetic w st obs tracks i room v = record {
  next_is = omega (arith, v.next_is);
  retained = λ k one le kept.
      store-retained st.ring st.next_window_seq _ k refl
        (λ less. v.retained k one (omega (arith, v.next_is)) (omega (arith, v.next_is))) le kept;
}

admit_to-ring_head :
    (arithmetic : Arithmetic) (w : Writing) (st : JournalState) (obs : Observation)
    (tracks : List SensorTrack) (i : ℕ)
    → (admit_to arithmetic w st obs tracks i).0.ring_head ≡ st.next_window_seq
unfolding admit_to
admit_to-ring_head arithmetic w st obs tracks i = refl

-- A step of the journal, which takes at most one window.
abbrev pub Grown : JournalState → JournalState → Type 0
Grown st next =
    IsJournal next × (st.ring_head ≤ next.ring_head) × (next.ring_head ≤ st.ring_head + 1)

Grown-refl : (st : JournalState) → IsJournal st → Grown st st
Grown-refl st v = (v, omega arith, omega arith)

admit_locked-Grown :
    (arithmetic : Arithmetic) (w : Writing) (st : JournalState) (obs : Observation)
    → st.ring_head + 2 < 2 ^ 64
    → IsJournal st
    → Grown st (admit_locked arithmetic w st obs).0
unfolding admit_locked
admit_locked-Grown arithmetic w st obs room v =
    elim (Option-cases (find_or_create_track st.tracks obs.sensor_id)) [
      | inl full ↦ rw (full, admit_locked) (Grown-refl st v)
      | inr ((tracks, i), found) ↦
          rw (found, admit_locked)
            (
              admit_to-IsJournal arithmetic w st obs tracks i room v,
              omega (arith, v.next_is, admit_to-ring_head arithmetic w st obs tracks i),
              omega (arith, v.next_is, admit_to-ring_head arithmetic w st obs tracks i),
            )
    ]

pub handle_submission-Grown :
    (arithmetic : Arithmetic) (w : Writing) (st : JournalState) (msg_type : ℕ) (payload : List ℕ)
    → st.ring_head + 2 < 2 ^ 64
    → IsJournal st
    → Grown st (handle_submission arithmetic w st msg_type payload)
unfolding handle_submission
handle_submission-Grown arithmetic w st msg_type payload room v =
    elim (Result-cases (decode_observation payload)) [
      | inl (e, bad) ↦
          rw (bad, handle_submission)
            (if_either (Grown st) (msg_type == msg_observation_submit) (Grown-refl st v)
              (Grown-refl st v))
      | inr (obs, good) ↦
          rw (good, handle_submission)
            (if_either (Grown st) (msg_type == msg_observation_submit)
              (admit_locked-Grown arithmetic w st obs room v) (Grown-refl st v))
    ]

-- The slots of the connections have no part in it.
pub conns-IsJournal :
    (st : JournalState) (conns : List ConnSlot)
    → IsJournal st
    → IsJournal (record st { conns = conns })
conns-IsJournal st conns v = record { next_is = v.next_is; retained = v.retained }
