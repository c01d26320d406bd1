-- ===== src/Journal/Session.antt =====
-- src/core/journal.c: the observations that a run of admissions lets through.
use obicall.Common.{
  ℕ, ◌≡◌, refl, sym, ap, subst, ◌∙◌, Bool, true, false, not, ◌&&◌, List, [], ◌∷◌, map, Option, none,
  some, ◌==◌, if◌then◌else◌, All, arith, ◌≤◌, ◌||◌, inl, inr, Bool-cases, leb, ◌-◌,
}
use obicall.Common.Marks.{is_fresh, Increasing}
use obicall.Observation.{Observation}
use obicall.Observation.Doubles.{Arithmetic}
use obicall.Journal.Admit.{
  JournalConfig, SensorTrack, track_after, admit, is_admitted, is_ok, admit_lem, admit_behind,
  reject_duplicate, reject_late,
}
use obicall.Observation.Validate.{observation_validate}

-- The highest sequence number of a session, if the track follows that session.
abbrev pub session_mark : SensorTrack → ℕ → Option ℕ
session_mark track boot =
    if not (track.has_data == 0) && (track.source_boot_id == boot)
    then some track.highest_sequence_seen
    else none

module _ (arithmetic : Arithmetic) (cfg : JournalConfig) where
  -- The observations that are admitted, of some that are submitted with the number of pending ones.
  unfoldable pub admitted : SensorTrack → List (Observation × ℕ) → List Observation
  admitted track [] = []
  admitted track ((obs, pending) ∷ calls) =
      let rest = admitted (admit arithmetic cfg track obs pending).0 calls in
      if is_admitted (admit arithmetic cfg track obs pending).1 then obs ∷ rest else rest

  fresh_cond :
      (track : SensorTrack) (obs : Observation) (pending : ℕ)
      → is_admitted (admit arithmetic cfg track obs pending).1 ≡ true
      → is_fresh (session_mark track obs.source_boot_id) obs.sequence ≡ true
  fresh_cond track obs pending done =
      ground (arith, sym ((admit_lem arithmetic cfg track obs pending).0) ∙ done)

  track_after-session_mark :
      (track : SensorTrack) (obs : Observation)
      → session_mark (track_after track obs) obs.source_boot_id ≡ some obs.sequence
  unfolding track_after
  track_after-session_mark track obs = ground arith

  abbrev pub sequences : List Observation → List ℕ
  sequences os = map (λ (o : Observation). o.sequence) os

  -- One step of a run.
  admit-Increasing :
      (done : Bool) (track next : SensorTrack) (obs : Observation) (boot : ℕ)
      (rest : List Observation)
      → next ≡ (if done then track_after track obs else track)
      → obs.source_boot_id ≡ boot
      → (done ≡ true → is_fresh (session_mark track obs.source_boot_id) obs.sequence ≡ true)
      → Increasing (session_mark next boot) (sequences rest)
      → Increasing (session_mark track boot) (sequences (if done then obs ∷ rest else rest))
  admit-Increasing false track next obs boot rest e same fresh later =
      subst (λ (t : SensorTrack). Increasing (session_mark t boot) (sequences rest)) e later
  admit-Increasing true track next obs boot rest e same fresh later =
      let mark : session_mark next boot ≡ some obs.sequence =
        ap (λ (b : ℕ). session_mark next b) (sym same)
        ∙ ap (λ (t : SensorTrack). session_mark t obs.source_boot_id) e
        ∙ track_after-session_mark track obs in
      (
        subst (λ (b : ℕ). is_fresh (session_mark track b) obs.sequence ≡ true) same (fresh refl),
        subst (λ m. Increasing m (sequences rest)) mark later,
      )

  -- While the source does not restart, the sequence numbers that are admitted strictly increase, from above the highest
  -- one of the session.
  pub admitted-Increasing :
      (calls : List (Observation × ℕ)) (track : SensorTrack) (boot : ℕ)
      → All (λ (c : Observation × ℕ). c.0.source_boot_id ≡ boot) calls
      → Increasing (session_mark track boot) (sequences (admitted track calls))
  unfolding admitted
  admitted-Increasing [] track boot all = tt
  admitted-Increasing ((obs, pending) ∷ calls) track boot (same, all) =
      admit-Increasing (is_admitted (admit arithmetic cfg track obs pending).1) track
        (admit arithmetic cfg track obs pending).0 obs boot _
        ((admit_lem arithmetic cfg track obs pending).1) same (fresh_cond track obs pending)
        (admitted-Increasing calls (admit arithmetic cfg track obs pending).0 boot all)

  -- The track after the calls.
  unfoldable pub session : SensorTrack → List (Observation × ℕ) → SensorTrack
  session track [] = track
  session track ((obs, pending) ∷ calls) = session (admit arithmetic cfg track obs pending).0 calls

  -- The track follows the session of the source, and has seen the sequence number.
  record HasSeen (boot sequence : ℕ) (track : SensorTrack) : Type 0 where
    follows : (track.has_data == 0 || not (track.source_boot_id == boot)) ≡ false
    highest : sequence ≤ track.highest_sequence_seen

  track_after-HasSeen :
      (track : SensorTrack) (obs : Observation)
      → HasSeen obs.source_boot_id obs.sequence (track_after track obs)
  unfolding track_after
  track_after-HasSeen track obs = record { follows = ground arith; highest = omega arith }

  -- A call of the session keeps what was seen.
  admit-HasSeen :
      (track : SensorTrack) (obs : Observation) (pending boot sequence : ℕ)
      → obs.source_boot_id ≡ boot
      → HasSeen boot sequence track
      → HasSeen boot sequence (admit arithmetic cfg track obs pending).0
  admit-HasSeen track obs pending boot sequence same v =
      let (_, after) = admit_lem arithmetic cfg track obs pending in
      elim (Bool-cases (is_admitted (admit arithmetic cfg track obs pending).1)) [
        | inl done ↦
            let e : (admit arithmetic cfg track obs pending).0 ≡ track_after track obs =
              ground (arith, done, after) in
            let new = track_after-HasSeen track obs in
            let fresh = fresh_cond track obs pending done in
            let above : sequence ≤ obs.sequence =
              ground (arith, fresh, v.follows, v.highest, same) in
            subst (HasSeen boot sequence) (sym e) (record {
              follows =
                  (subst (λ b. HasSeen b obs.sequence (track_after track obs)) same new).follows;
              highest = omega (arith, above, new.highest);
            })
        | inr refused ↦
            let e : track ≡ (admit arithmetic cfg track obs pending).0 =
              ground (arith, refused, after) in
            subst (HasSeen boot sequence) e v
      ]

  session-HasSeen :
      (calls : List (Observation × ℕ)) (track : SensorTrack) (boot sequence : ℕ)
      → All (λ (c : Observation × ℕ). c.0.source_boot_id ≡ boot) calls
      → HasSeen boot sequence track
      → HasSeen boot sequence (session track calls)
  unfolding session
  session-HasSeen [] track boot sequence all v = v
  session-HasSeen ((obs, pending) ∷ calls) track boot sequence (same, all) v =
      session-HasSeen calls (admit arithmetic cfg track obs pending).0 boot sequence all
        (admit-HasSeen track obs pending boot sequence same v)

  admitted-HasSeen :
      (track : SensorTrack) (obs : Observation) (pending : ℕ)
      → is_admitted (admit arithmetic cfg track obs pending).1 ≡ true
      → (is_ok (observation_validate arithmetic obs) ≡ true)
        × HasSeen obs.source_boot_id obs.sequence (admit arithmetic cfg track obs pending).0
  admitted-HasSeen track obs pending done =
      let (exactly, after) = admit_lem arithmetic cfg track obs pending in
      let e : (admit arithmetic cfg track obs pending).0 ≡ track_after track obs =
        ground (arith, done, after) in
      let valid : is_ok (observation_validate arithmetic obs) ≡ true =
        ground (arith, sym exactly ∙ done) in
      (
        valid,
        subst (HasSeen obs.source_boot_id obs.sequence) (sym e) (track_after-HasSeen track obs),
      )

  -- An observation that was admitted and is submitted again, after any further calls of its session, is refused and
  -- leaves the track: as a duplicate if it is at most the reorder window behind the highest sequence number by
  -- then, and as late beyond it. It is never above that number.
  pub admit_again :
      (track : SensorTrack) (obs : Observation) (pending : ℕ) (calls : List (Observation × ℕ))
      (next_pending : ℕ)
      → is_admitted (admit arithmetic cfg track obs pending).1 ≡ true
      → All (λ (c : Observation × ℕ). c.0.source_boot_id ≡ obs.source_boot_id) calls
      → (obs.sequence
          ≤ (session (admit arithmetic cfg track obs pending).0 calls).highest_sequence_seen)
        × (admit arithmetic cfg
              (session (admit arithmetic cfg track obs pending).0 calls)
              obs
              next_pending
            ≡ (
              session (admit arithmetic cfg track obs pending).0 calls,
              if leb
                    ((session
                        (admit arithmetic cfg track obs pending).0
                        calls).highest_sequence_seen
                      - obs.sequence)
                    cfg.reorder_window_n
                  then reject_duplicate
                  else reject_late,
            ))
  admit_again track obs pending calls next_pending done all =
      let (valid, seen) = admitted-HasSeen track obs pending done in
      let last = session (admit arithmetic cfg track obs pending).0 calls in
      let v = session-HasSeen calls _ obs.source_boot_id obs.sequence all seen in
      (v.highest, admit_behind arithmetic cfg last obs next_pending valid v.follows v.highest)
