-- ===== src/JournalDaemon/Subscription.antt =====
-- src/journal/journal_main.c: a broker's subscription, while workers submit observations.
use obicall.Common.{
  ℕ, ◌+◌, ◌%◌, ◌^◌, ◌≤◌, ◌<◌, ◌≡◌, ◌⊎◌, leb, Bool-cases, refl, if_either, sym, ap, subst, ◌∙◌, inl,
  inr, List, [], ◌∷◌, none, some, arith, length, Option-cases, ℤ,
}
use obicall.JournalDaemon.State.{ring_capacity, RingEntry, ConnSlot, JournalState, Writing}
use obicall.JournalDaemon.Submit.{handle_submission}
use obicall.JournalDaemon.Replay.{
  start_cursor, next_entry, Sent, Subscription, conn_at, report_cursor, start_subscription,
  mark_caught_up, broker_round,
}
use obicall.JournalDaemon.Ring.{IsJournal, conns-IsJournal, handle_submission-Grown}
use obicall.Observation.Doubles.{Arithmetic}

-- A frame of a worker, a round of the broker's thread, its report of the cursor, or what other connections make
-- of the table of slots.
pub data Step : Type 0 where
  submission : Writing → ℕ → List ℕ → Step
  round : ℤ → Step
  report : Step
  others : List ConnSlot → Step

module _ (arithmetic : Arithmetic) where
  -- The entries that the broker's thread reads of the ring, in order.
  unfoldable pub reads : JournalState → Subscription → List Step → List RingEntry
  reads st s [] = []
  reads st s (submission w msg_type payload ∷ steps) =
      reads (handle_submission arithmetic w st msg_type payload) s steps
  reads st s (round now ∷ steps) =
      let after = broker_round st s now in
      let rest = reads after.0 after.1 steps in
      elim (next_entry st s.cursor) [ none ↦ rest | some e ↦ e ∷ rest ]
  reads st s (report ∷ steps) = reads (report_cursor st s) s steps
  reads st s (others conns ∷ steps) = reads (record st { conns = conns }) s steps

  -- Whenever the thread looks, the window that it wants is still in the ring.
  abbrev pub InTime : JournalState → Subscription → List Step → Type 0
  InTime st s [] = Unit
  InTime st s (submission w msg_type payload ∷ steps) =
      InTime (handle_submission arithmetic w st msg_type payload) s steps
  InTime st s (round now ∷ steps) =
      (st.ring_head < s.cursor + ring_capacity)
      × InTime (broker_round st s now).0 (broker_round st s now).1 steps
  InTime st s (report ∷ steps) = InTime (report_cursor st s) s steps
  InTime st s (others conns ∷ steps) = InTime (record st { conns = conns }) s steps

  -- One window after the other, from the first one on.
  abbrev pub Consecutive : ℕ → List RingEntry → Type 0
  Consecutive first [] = Unit
  Consecutive first (e ∷ es) = (e.window_seq ≡ first) × Consecutive (first + 1) es

  next_entry-window_seq :
      (st : JournalState) (cursor : ℕ) (e : RingEntry)
      → IsJournal st
      → st.ring_head < cursor + ring_capacity
      → next_entry st cursor ≡ some e
      → (e.window_seq ≡ cursor) × (cursor ≤ st.ring_head)
  unfolding next_entry
  next_entry-window_seq st cursor e v near h =
      let one : 1 ≤ cursor = ground arith in
      let le : cursor ≤ st.ring_head = ground arith in
      let here : st.ring (cursor % ring_capacity) ≡ e = ground arith in
      (ap (λ (x : RingEntry). x.window_seq) (sym here) ∙ v.retained cursor one le near, le)

  -- A round changes at most the slot of its connection.
  round-IsJournal :
      (st : JournalState) (s : Subscription) (now : ℤ)
      → IsJournal st
      → IsJournal (broker_round st s now).0 × ((broker_round st s now).0.ring_head ≡ st.ring_head)
  unfolding broker_round mark_caught_up
  round-IsJournal st s now v = elim (Option-cases (next_entry st s.cursor)) [
    | inl waiting ↦
        rw (waiting, broker_round)
          (if_either
            (λ (p : JournalState × Subscription × List Sent).
              IsJournal p.0 × (p.0.ring_head ≡ st.ring_head))
            (conn_at st.conns s.slot).caught_up (v, refl) (conns-IsJournal st _ v, refl))
    | inr (e, found) ↦ rw (found, broker_round) (v, refl)
  ]

  round-waits :
      (st : JournalState) (s : Subscription) (now : ℤ)
      → next_entry st s.cursor ≡ none
      → (broker_round st s now).1.cursor ≡ s.cursor
  unfolding broker_round
  round-waits st s now waiting = ground (arith, waiting)

  round-moves :
      (st : JournalState) (s : Subscription) (now : ℤ) (e : RingEntry)
      → next_entry st s.cursor ≡ some e
      → s.cursor + 1 < 2 ^ 64
      → (broker_round st s now).1.cursor ≡ s.cursor + 1
  unfolding broker_round
  round-moves st s now e found small = ground (arith, found)

  reads-Consecutive :
      (st : JournalState) (s : Subscription) (steps : List Step)
      → IsJournal st
      → st.ring_head + length steps + 2 < 2 ^ 64
      → InTime st s steps
      → Consecutive s.cursor (reads st s steps)
  unfolding reads report_cursor
  reads-Consecutive st s [] v room timely = tt
  reads-Consecutive st s (submission w msg_type payload ∷ steps) v room timely =
      let (next, grown, most) =
        handle_submission-Grown arithmetic w st msg_type payload (omega arith) v in
      reads-Consecutive (handle_submission arithmetic w st msg_type payload) s steps next
        (omega arith) timely
  reads-Consecutive st s (report ∷ steps) v room timely =
      reads-Consecutive (report_cursor st s) s steps (conns-IsJournal st _ v) (omega arith) timely
  reads-Consecutive st s (others conns ∷ steps) v room timely =
      reads-Consecutive (record st { conns = conns }) s steps (conns-IsJournal st conns v)
        (omega arith) timely
  reads-Consecutive st s (round now ∷ steps) v room (near, timely) =
      let after = broker_round st s now in
      let (next, same_head) = round-IsJournal st s now v in
      let rest = reads-Consecutive after.0 after.1 steps next (omega (arith, same_head)) timely in
      elim (Option-cases (next_entry st s.cursor)) [
        | inl none_left ↦
            rw (none_left, reads)
              (subst (λ (c : ℕ). Consecutive c (reads after.0 after.1 steps))
                (round-waits st s now none_left) rest)
        | inr (e, found) ↦
            let (window, le) = next_entry-window_seq st s.cursor e v near found in
            rw (found, reads)
              (
                window,
                subst (λ (c : ℕ). Consecutive c (reads after.0 after.1 steps))
                    (round-moves st s now e found (omega arith)) rest,
              )
      ]

  start_cursor_bounds :
      (st : JournalState) (from : ℕ)
      → st.ring_head + 1 < 2 ^ 64
      → (1 ≤ start_cursor st from) × (st.ring_head < start_cursor st from + ring_capacity)
  unfolding start_cursor
  start_cursor_bounds st from small = (ground arith, ground arith)

  -- Where the ring holds the last windows: the window where a broker that asks for one is started is not below 1, it
  -- is the next one to be given or a later one, or it is in the ring. From it on, the broker's thread reads one
  -- window after the other, whatever workers submit and other connections do meanwhile, as long as whenever it looks
  -- the window that it wants was not displaced from the ring, and fewer than 2^64 windows are given.
  pub subscription-Consecutive :
      (st : JournalState) (slot from : ℕ) (steps : List Step)
      → IsJournal st
      → st.ring_head + length steps + 2 < 2 ^ 64
      → InTime (start_subscription st slot from).0 (start_subscription st slot from).1 steps
      → (1 ≤ start_cursor st from)
        × (st.ring_head < start_cursor st from + ring_capacity)
        × ((st.ring_head < start_cursor st from)
            ⊎ ((st.ring (start_cursor st from % ring_capacity)).window_seq ≡ start_cursor st from))
        × Consecutive
            (start_cursor st from)
            (reads (start_subscription st slot from).0 (start_subscription st slot from).1 steps)
  unfolding start_subscription report_cursor
  subscription-Consecutive st slot from steps v room timely =
      let (one, near) = start_cursor_bounds st from (omega arith) in
      (
        one,
        near,
        elim (Bool-cases (leb (start_cursor st from) st.ring_head)) [
          | inl given ↦ inr (v.retained (start_cursor st from) one (ground (arith, given)) near)
          | inr later ↦ inl (ground (arith, later))
        ],
        reads-Consecutive (start_subscription st slot from).0 (start_subscription st slot from).1
            steps (conns-IsJournal st _ v) room timely,
      )
