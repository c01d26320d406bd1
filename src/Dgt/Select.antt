-- ===== src/Dgt/Select.antt =====
-- src/core/dgt.c: the constrained minimax selection, `obicall_dgt_select_action`.
use obicall.Common.{
  ℕ, zero, suc, Bool, true, false, not, ◌&&◌, ◌||◌, List, Option, none, some, leb, ltb, ◌==◌,
  if◌then◌else◌, get_elem?,
}
use obicall.Observation.Doubles.{Arithmetic, is_nan, f64_lt}
use obicall.Dgt.Policy.{PolicyTable, validate_table, action_worst_case_loss}
use obicall.Status.{Result, ok, err, dgt_no_eligible_action}

-- `has_previous` is a flag of the state that is handed in.
pub record HysteresisState : Type 0 where
  pub has_previous : ℕ
  pub previous_action_index : ℕ
  pub previous_worst_case_loss : ℕ

pub record DgtDecision : Type 0 where
  pub selected_action_id : ℕ
  pub selected_action_index : ℕ
  pub worst_case_loss : ℕ
  pub eligible_count : ℕ
  pub used_fallback_baseline : ℕ
  pub used_hysteresis_hold : ℕ

-- `action_eligible[a]`
abbrev pub is_eligible : List ℕ → ℕ → Bool
is_eligible eligibility a = elim (get_elem? eligibility a) [
  | none ↦ false
  | some flag ↦ not (flag == 0)
]

abbrev pub action_id_at : PolicyTable → ℕ → ℕ
action_id_at table a = elim (get_elem? table.actions a) [
  | none ↦ 0
  | some action ↦ action.action_id
]

-- `a == b` on doubles
abbrev f64_eq : ℕ → ℕ → Bool
f64_eq a b = not (is_nan a) && not (is_nan b) && not (f64_lt a b) && not (f64_lt b a)

-- The number of eligible actions and the best of them, with its loss.
pub record Best : Type 0 where
  pub eligible_count : ℕ
  pub best : Option (ℕ × ℕ)

abbrev one : ℕ
one = 0x3FF0000000000000

module _ (arithmetic : Arithmetic) (table : PolicyTable) (eligibility : List ℕ) where
  abbrev pub is_better : ℕ → ℕ → Option (ℕ × ℕ) → Bool
  is_better a loss none = true
  is_better a loss (some (best_idx, best_loss)) =
      f64_lt loss best_loss
      || (f64_eq loss best_loss && ltb (action_id_at table a) (action_id_at table best_idx))

  abbrev pub consider : ℕ → Result ℕ → Best → Best
  consider a (err e) b = b
  consider a (ok loss) b = record {
    eligible_count = suc b.eligible_count;
    best = if is_better a loss b.best then some (a, loss) else b.best;
  }

  -- The loop over the actions, `n` of them from `a` on.
  unfoldable pub best_action : ℕ → ℕ → Best → Best
  best_action zero a b = b
  best_action (suc n) a b = best_action n (suc a) (
      if is_eligible eligibility a
      then consider a (action_worst_case_loss arithmetic table a) b
      else b)

  -- The decision and the state of the hysteresis after it.
  abbrev pub decide : ℕ → ℕ → ℕ → ℕ → ℕ → DgtDecision × HysteresisState
  decide index loss count fallback hold = (
    record {
      selected_action_id = action_id_at table index;
      selected_action_index = index;
      worst_case_loss = loss;
      eligible_count = count;
      used_fallback_baseline = fallback;
      used_hysteresis_hold = hold;
    },
    record { has_previous = 1; previous_action_index = index; previous_worst_case_loss = loss },
  )

  abbrev pub baseline_with : ℕ → Result ℕ → Result (DgtDecision × HysteresisState)
  baseline_with index (err e) = err dgt_no_eligible_action
  baseline_with index (ok loss) = ok (decide index loss 1 1 0)

  unfoldable pub select_baseline : ℕ → Result (DgtDecision × HysteresisState)
  select_baseline index =
      if leb table.action_count index || not (is_eligible eligibility index)
      then err dgt_no_eligible_action
      else baseline_with index (action_worst_case_loss arithmetic table index)

  -- The held action stays unless the best one beats it by the margin.
  abbrev pub hold_or_switch : ℕ → ℕ → ℕ → ℕ → ℕ → Result ℕ → DgtDecision × HysteresisState
  hold_or_switch margin count best_idx best_loss prev (err e) = decide best_idx best_loss count 0 0
  hold_or_switch margin count best_idx best_loss prev (ok prev_loss) =
      if not (f64_lt best_loss (arithmetic.mul prev_loss (arithmetic.sub one margin)))
      then decide prev prev_loss count 0 (if not (prev == best_idx) then 1 else 0)
      else decide best_idx best_loss count 0 0

  unfoldable pub with_hysteresis : HysteresisState → ℕ → ℕ → ℕ → ℕ → DgtDecision × HysteresisState
  with_hysteresis before margin count best_idx best_loss =
      let prev = before.previous_action_index in
      if not (before.has_previous == 0)
        && ltb prev table.action_count
        && is_eligible eligibility prev
      then hold_or_switch margin count best_idx best_loss prev
          (action_worst_case_loss arithmetic table prev)
      else decide best_idx best_loss count 0 0

  abbrev pub select_best : HysteresisState → ℕ → ℕ → Best → Result (DgtDecision × HysteresisState)
  select_best before margin baseline b = elim b.best [
    | none ↦ select_baseline baseline
    | some (best_idx, best_loss) ↦
        ok (with_hysteresis before margin b.eligible_count best_idx best_loss)
  ]

  abbrev pub select_valid :
      HysteresisState → ℕ → ℕ → Result (Unit {0}) → Result (DgtDecision × HysteresisState)
  select_valid before margin baseline (err e) = select_baseline baseline
  select_valid before margin baseline (ok u) =
      select_best before margin baseline
        (best_action table.action_count 0 (record { eligible_count = 0; best = none }))

  -- A missing `hysteresis_in` is a state without a previous action.
  unfoldable pub select_action : HysteresisState → ℕ → ℕ → Result (DgtDecision × HysteresisState)
  select_action before margin baseline = select_valid before margin baseline (validate_table table)
