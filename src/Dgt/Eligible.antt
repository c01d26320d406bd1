-- ===== src/Dgt/Eligible.antt =====
-- src/core/dgt.c: the selected action is an eligible one.
use obicall.Common.{
  ℕ, zero, suc, ◌+◌, ◌≤◌, ◌<◌, ◌≡◌, refl, subst, Bool, true, false, not, ◌&&◌, ◌||◌, List, Option,
  none, some, leb, ltb, ◌==◌, ◌≢◌, if◌then◌else◌, if_either, arith, length, get_elem?, Option-cases,
  Bool-cases, inl, inr,
}
use obicall.Observation.Doubles.{Arithmetic, f64_lt}
use obicall.Dgt.Policy.{PolicyTable, IsPolicyTable, validate_table, action_worst_case_loss}
use obicall.Dgt.Select.{
  HysteresisState, DgtDecision, is_eligible, action_id_at, is_better, Best, consider, best_action,
  decide, baseline_with, select_baseline, hold_or_switch, with_hysteresis, select_best,
  select_valid, select_action,
}
use obicall.Status.{Result, ok, err}

module _ (arithmetic : Arithmetic) (table : PolicyTable) (eligibility : List ℕ) where
  -- An action of the table that is flagged as eligible, with its worst loss.
  pub record IsChoice (a loss : ℕ) : Type 0 where
    pub inside : a < table.action_count
    pub eligible : (flag : ℕ) × (get_elem? eligibility a ≡ some flag) × (flag ≢ 0)
    pub worst : action_worst_case_loss arithmetic table a ≡ ok loss

  is_eligible-flag :
      (a : ℕ)
      → is_eligible eligibility a ≡ true
      → (flag : ℕ) × (get_elem? eligibility a ≡ some flag) × (flag ≢ 0)
  is_eligible-flag a h = elim (Option-cases (get_elem? eligibility a)) [
    | inl outside ↦ absurd (ground (arith, outside))
    | inr (flag, here) ↦ (flag, here, ground (arith, here))
  ]

  choose :
      (a loss : ℕ)
      → a < table.action_count
      → is_eligible eligibility a ≡ true
      → action_worst_case_loss arithmetic table a ≡ ok loss
      → IsChoice a loss
  choose a loss inside flagged worst = record {
    inside = inside;
    eligible = is_eligible-flag a flagged;
    worst = worst;
  }

  abbrev IsSound : Option (ℕ × ℕ) → Type 0
  IsSound none = Unit
  IsSound (some (a, loss)) = IsChoice a loss

  consider-IsSound :
      (a : ℕ) (r : Result ℕ) (b : Best)
      → a < table.action_count
      → is_eligible eligibility a ≡ true
      → action_worst_case_loss arithmetic table a ≡ r
      → IsSound b.best
      → IsSound (consider arithmetic table eligibility a r b).best
  consider-IsSound a (err e) b inside flagged worst sound = sound
  consider-IsSound a (ok loss) b inside flagged worst sound =
      if_either IsSound (is_better arithmetic table eligibility a loss b.best) {x = some (a, loss)}
        (choose a loss inside flagged worst) sound

  best_action-IsSound :
      (n a : ℕ) (b : Best)
      → a + n ≤ table.action_count
      → IsSound b.best
      → IsSound (best_action arithmetic table eligibility n a b).best
  unfolding best_action
  best_action-IsSound zero a b h sound = sound
  best_action-IsSound (suc n) a b h sound =
      best_action-IsSound n (suc a) _ (omega arith) (next (is_eligible eligibility a) refl)
    where
      next :
          (e : Bool)
          → is_eligible eligibility a ≡ e
          → IsSound
              (if e
                then consider arithmetic table eligibility a
                    (action_worst_case_loss arithmetic table a)
                    b
                else b).best
      next true is_true =
          consider-IsSound a (action_worst_case_loss arithmetic table a) b (omega arith) is_true
            refl sound
      next false is_false = sound

  -- The decision names a choice, its id and its loss, and the state after it holds them.
  pub record IsDecision (d : DgtDecision) (after : HysteresisState) : Type 0 where
    pub choice : IsChoice d.selected_action_index d.worst_case_loss
    pub id : d.selected_action_id ≡ action_id_at table d.selected_action_index
    pub has_previous : after.has_previous ≡ 1
    pub previous_index : after.previous_action_index ≡ d.selected_action_index
    pub previous_loss : after.previous_worst_case_loss ≡ d.worst_case_loss

  abbrev Decides : DgtDecision × HysteresisState → Type 0
  Decides (d, after) = IsDecision d after

  decide-IsDecision :
      (index loss count fallback hold : ℕ)
      → IsChoice index loss
      → Decides (decide arithmetic table eligibility index loss count fallback hold)
  decide-IsDecision index loss count fallback hold c = record {
    choice = c;
    id = refl;
    has_previous = refl;
    previous_index = refl;
    previous_loss = refl;
  }

  abbrev Names : Result (DgtDecision × HysteresisState) → Type 0
  Names (err e) = Unit
  Names (ok out) = Decides out

  baseline_with-Names :
      (index : ℕ) (r : Result ℕ)
      → index < table.action_count
      → is_eligible eligibility index ≡ true
      → action_worst_case_loss arithmetic table index ≡ r
      → Names (baseline_with arithmetic table eligibility index r)
  baseline_with-Names index (err e) inside flagged worst = tt
  baseline_with-Names index (ok loss) inside flagged worst =
      decide-IsDecision index loss 1 1 0 (choose index loss inside flagged worst)

  select_baseline-Names : (index : ℕ) → Names (select_baseline arithmetic table eligibility index)
  unfolding select_baseline
  select_baseline-Names index =
      elim (Bool-cases (leb table.action_count index || not (is_eligible eligibility index))) [
        | inl refused ↦ rw refused tt
        | inr open_index ↦ rw open_index (
            baseline_with-Names index _ (ground (arith, open_index)) (ground (arith, open_index))
              refl)
      ]

  hold_or_switch-Decides :
      (margin count best_idx best_loss prev : ℕ) (r : Result ℕ)
      → IsChoice best_idx best_loss
      → prev < table.action_count
      → is_eligible eligibility prev ≡ true
      → action_worst_case_loss arithmetic table prev ≡ r
      → Decides (hold_or_switch arithmetic table eligibility margin count best_idx best_loss prev r)
  hold_or_switch-Decides margin count best_idx best_loss prev (err e) best inside flagged worst =
      decide-IsDecision best_idx best_loss count 0 0 best
  hold_or_switch-Decides margin count best_idx best_loss prev (ok prev_loss) best inside flagged
        worst =
      if_either Decides
        (not
          (f64_lt best_loss (arithmetic.mul prev_loss (arithmetic.sub 0x3FF0000000000000 margin))))
        (decide-IsDecision prev prev_loss count 0 _ (choose prev prev_loss inside flagged worst))
        (decide-IsDecision best_idx best_loss count 0 0 best)

  with_hysteresis-Decides :
      (before : HysteresisState) (margin count best_idx best_loss : ℕ)
      → IsChoice best_idx best_loss
      → Decides
          (with_hysteresis arithmetic table eligibility before margin count best_idx best_loss)
  unfolding with_hysteresis
  with_hysteresis-Decides before margin count best_idx best_loss best =
      let prev = before.previous_action_index in
      elim (Bool-cases (
        not (before.has_previous == 0)
        && ltb prev table.action_count
        && is_eligible eligibility prev)) [
          | inl held ↦ rw held (
              hold_or_switch-Decides margin count best_idx best_loss prev _ best
                (ground (arith, held)) (ground (arith, held)) refl)
          | inr dropped ↦ rw dropped (decide-IsDecision best_idx best_loss count 0 0 best)
        ]

  select_best-Names :
      (before : HysteresisState) (margin baseline count : ℕ) (best : Option (ℕ × ℕ))
      → IsSound best
      → Names (
          select_best arithmetic table eligibility before margin baseline
            (record { eligible_count = count; best = best }))
  select_best-Names before margin baseline count none sound = select_baseline-Names baseline
  select_best-Names before margin baseline count (some (i, loss)) sound =
      with_hysteresis-Decides before margin count i loss sound

  select_valid-Names :
      (before : HysteresisState) (margin baseline : ℕ) (valid : Result (Unit {0}))
      → Names (select_valid arithmetic table eligibility before margin baseline valid)
  select_valid-Names before margin baseline (err e) = select_baseline-Names baseline
  select_valid-Names before margin baseline (ok u) =
      let b =
        best_action arithmetic table eligibility table.action_count 0
          (record { eligible_count = 0; best = none }) in
      select_best-Names before margin baseline b.eligible_count b.best (
        best_action-IsSound table.action_count 0 (record { eligible_count = 0; best = none })
          (omega arith) tt)

  -- For a table, valid or not, whose counts are within its arrays, and 16 flags: the selected action, be it the best
  -- one, one that is held or the baseline, is an action of the table that is flagged as eligible. The decision
  -- has its id and its worst loss, and the state after it holds its index and its loss.
  pub select_action-IsDecision :
      (before : HysteresisState) (margin baseline : ℕ) (d : DgtDecision) (after : HysteresisState)
      → IsPolicyTable table
      → length eligibility ≡ 16
      → select_action arithmetic table eligibility before margin baseline ≡ ok (d, after)
      → IsDecision d after
  unfolding select_action
  select_action-IsDecision before margin baseline d after fits flags e =
      subst Names e (select_valid-Names before margin baseline (validate_table table))
