-- ===== src/Dgt/Policy.antt =====
-- include/obicall/dgt.h and src/core/dgt.c: the policy table, its validation and an action's loss.
use obicall.Common.{
  ℕ, Bool, false, not, ◌||◌, List, [], ◌∷◌, Option, none, some, leb, ltb, ◌==◌, if◌then◌else◌,
  get_elem?, take, length, All, ◌≤◌, ◌≡◌,
}
use obicall.Observation.Doubles.{Arithmetic, is_finite, f64_lt}
use obicall.Status.{
  Result, ok, err, invalid_argument, unsupported, out_of_range, dgt_invalid_score, ◌>>=◌,
}

abbrev pub max_actions : ℕ
max_actions = 16

abbrev pub max_scenarios : ℕ
max_scenarios = 16

abbrev pub policy_schema_version : ℕ
policy_schema_version = 1

-- `sizeof(obicall_dgt_policy_table_t)` with 8-byte alignment of 64-bit fields.
abbrev pub sizeof_policy_table : ℕ
sizeof_policy_table = 11800

pub record DgtAction : Type 0 where
  pub action_id : ℕ
  pub name : List ℕ
  pub sensor_subset_mask : ℕ
  pub estimator_mode : ℕ
  pub provider_name : List ℕ

pub record DgtScenario : Type 0 where
  pub scenario_id : ℕ
  pub name : List ℕ

-- A double is its bit pattern.
pub record CostComponents : Type 0 where
  pub estimation_error : ℕ
  pub delay : ℕ
  pub coverage_loss : ℕ
  pub resource_cost : ℕ

pub record DgtWeights : Type 0 where
  pub w_estimation_error : ℕ
  pub w_delay : ℕ
  pub w_coverage_loss : ℕ
  pub w_resource_cost : ℕ

pub record PolicyTable : Type 0 where
  pub struct_size : ℕ
  pub schema_version : ℕ
  pub policy_version : ℕ
  pub action_count : ℕ
  pub actions : List DgtAction
  pub scenario_count : ℕ
  pub scenarios : List DgtScenario
  pub weights : DgtWeights
  pub cost : List (List CostComponents)
  pub scale_estimation_error : ℕ
  pub scale_delay : ℕ
  pub scale_coverage_loss : ℕ
  pub scale_resource_cost : ℕ

-- The counts are within the arrays, which have their lengths.
pub record IsPolicyTable (table : PolicyTable) : Type 0 where
  pub actions_fit : table.action_count ≤ max_actions
  pub scenarios_fit : table.scenario_count ≤ max_scenarios
  pub actions_length : length table.actions ≡ max_actions
  pub scenarios_length : length table.scenarios ≡ max_scenarios
  pub cost_length : length table.cost ≡ max_actions
  pub cost_rows : All (λ (row : List CostComponents). length row ≡ max_scenarios) table.cost

-- The loop over the weights: whether one is positive.
unfoldable pub check_weights : List ℕ → Bool → Result Bool
check_weights [] any_positive = ok any_positive
check_weights (w ∷ ws) any_positive =
    let rest = check_weights ws (f64_lt 0 w || any_positive) in
    if not (is_finite w) || f64_lt w 0 then err dgt_invalid_score else rest

unfoldable pub check_scales : List ℕ → Result (Unit {0})
check_scales [] = ok tt
check_scales (s ∷ ss) =
    let rest = check_scales ss in
    if not (is_finite s) || not (f64_lt 0 s) then err dgt_invalid_score else rest

unfoldable pub check_components : List ℕ → Result (Unit {0})
check_components [] = ok tt
check_components (c ∷ cs) =
    let rest = check_components cs in
    if not (is_finite c) || f64_lt c 0 then err dgt_invalid_score else rest

-- The costs of an action under the scenarios in use.
unfoldable pub check_row : List CostComponents → Result (Unit {0})
check_row [] = ok tt
check_row (c ∷ cs) = do
  here ← check_components (c.estimation_error ∷ c.delay ∷ c.coverage_loss ∷ c.resource_cost ∷ [])
  check_row cs

unfoldable pub check_rows : ℕ → List (List CostComponents) → Result (Unit {0})
check_rows scenario_count [] = ok tt
check_rows scenario_count (row ∷ rows) = do
  here ← check_row (take scenario_count row)
  check_rows scenario_count rows

-- The text of the issue is not modelled.
unfoldable pub validate_table : PolicyTable → Result (Unit {0})
validate_table table =
    if not (table.struct_size == sizeof_policy_table)
    then err invalid_argument
    else if not (table.schema_version == policy_schema_version)
    then err unsupported
    else if table.action_count == 0 || ltb max_actions table.action_count
    then err invalid_argument
    else if table.scenario_count == 0 || ltb max_scenarios table.scenario_count
    then err invalid_argument
    else do
      let w = table.weights
      any_positive ←
          check_weights
            (w.w_estimation_error ∷ w.w_delay ∷ w.w_coverage_loss ∷ w.w_resource_cost ∷ []) false
      positive ← (if not any_positive then err dgt_invalid_score else ok (tt {0}))
      scaled ← check_scales (
          table.scale_estimation_error ∷ table.scale_delay ∷ table.scale_coverage_loss
          ∷ table.scale_resource_cost ∷ [])
      check_rows table.scenario_count (take table.action_count table.cost)

module _ (arithmetic : Arithmetic) where
  -- The weighted sum of the scaled components.
  unfoldable pub scenario_loss : PolicyTable → CostComponents → ℕ
  scenario_loss table c =
      let part = λ (weight value scale : ℕ). arithmetic.mul weight (arithmetic.div value scale) in
      let w = table.weights in
      arithmetic.add
        (arithmetic.add
          (arithmetic.add
            (part w.w_estimation_error c.estimation_error table.scale_estimation_error)
            (part w.w_delay c.delay table.scale_delay))
          (part w.w_coverage_loss c.coverage_loss table.scale_coverage_loss))
        (part w.w_resource_cost c.resource_cost table.scale_resource_cost)

  -- The loop over the scenarios, with the worst loss so far.
  unfoldable pub worst_loss : PolicyTable → List CostComponents → Option ℕ → Result ℕ
  worst_loss table [] none = err dgt_invalid_score
  worst_loss table [] (some worst) = ok worst
  worst_loss table (c ∷ cs) none =
      let rest = worst_loss table cs (some (scenario_loss table c)) in
      if not (is_finite (scenario_loss table c)) then err dgt_invalid_score else rest
  worst_loss table (c ∷ cs) (some worst) =
      let loss = scenario_loss table c in
      let rest = worst_loss table cs (some (if f64_lt worst loss then loss else worst)) in
      if not (is_finite loss) then err dgt_invalid_score else rest

  unfoldable pub action_worst_case_loss : PolicyTable → ℕ → Result ℕ
  action_worst_case_loss table action_index =
      if leb table.action_count action_index
      then err out_of_range
      else elim (get_elem? table.cost action_index) [
        | none ↦ err out_of_range
        | some row ↦ worst_loss table (take table.scenario_count row) none
      ]
