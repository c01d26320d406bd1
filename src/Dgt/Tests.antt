-- ===== src/Dgt/Tests.antt =====
-- Runs of the selection.
use obicall.Common.{ℕ, ◌≡◌, refl, List, [], ◌∷◌, replicate, length, All-replicate, arith}
use obicall.Observation.Doubles.{f64_lt}
use obicall.Observation.Validate.Sample.{coarse}
use obicall.Dgt.Policy.{
  CostComponents, PolicyTable, IsPolicyTable, validate_table, action_worst_case_loss, worst_loss,
  scenario_loss, check_weights, check_scales, check_components, check_row, check_rows,
}
use obicall.Dgt.Select.{
  HysteresisState, DgtDecision, best_action, select_baseline, with_hysteresis, select_action,
}
use obicall.Dgt.Eligible.{IsDecision, select_action-IsDecision}
use obicall.Status.{ok}

abbrev one : ℕ
one = 0x3FF0000000000000

abbrev table : PolicyTable
table = record {
  struct_size = 11800;
  schema_version = 1;
  policy_version = 1;
  action_count = 2;
  actions = replicate 16 (record {
    action_id = 4;
    name = [];
    sensor_subset_mask = 1;
    estimator_mode = 0;
    provider_name = [];
  });
  scenario_count = 1;
  scenarios = replicate 16 (record { scenario_id = 1; name = [] });
  weights = record {
    w_estimation_error = one;
    w_delay = 0;
    w_coverage_loss = 0;
    w_resource_cost = 0;
  };
  cost = replicate 16 (
      replicate 16
        (record { estimation_error = one; delay = 0; coverage_loss = 0; resource_cost = 0 }));
  scale_estimation_error = one;
  scale_delay = one;
  scale_coverage_loss = one;
  scale_resource_cost = one;
}

-- Only the second action is eligible.
abbrev flags : List ℕ
flags = 0 ∷ 1 ∷ replicate 14 0

abbrev fresh : HysteresisState
fresh = record { has_previous = 0; previous_action_index = 0; previous_worst_case_loss = 0 }

abbrev decision : DgtDecision
decision = record {
  selected_action_id = 4;
  selected_action_index = 1;
  worst_case_loss = 0x3E112E0BE826D695;
  eligible_count = 1;
  used_fallback_baseline = 0;
  used_hysteresis_hold = 0;
}

abbrev later : HysteresisState
later = record {
  has_previous = 1;
  previous_action_index = 1;
  previous_worst_case_loss = 0x3E112E0BE826D695;
}

only_eligible : select_action coarse table flags fresh 0 0 ≡ ok (decision, later)
unfolding select_action validate_table check_weights check_scales check_components check_row
    check_rows best_action select_baseline with_hysteresis action_worst_case_loss worst_loss
    scenario_loss f64_lt
only_eligible = refl

table-IsPolicyTable : IsPolicyTable table
table-IsPolicyTable = record {
  actions_fit = omega arith;
  scenarios_fit = omega arith;
  actions_length = refl;
  scenarios_length = refl;
  cost_length = refl;
  cost_rows =
      All-replicate (λ (row : List CostComponents). length row ≡ 16) 16
        (replicate 16
          (record { estimation_error = one; delay = 0; coverage_loss = 0; resource_cost = 0 }))
        refl;
}

select_action-IsDecision_example : IsDecision coarse table flags decision later
select_action-IsDecision_example =
    select_action-IsDecision coarse table flags fresh 0 0 decision later table-IsPolicyTable refl
      only_eligible
