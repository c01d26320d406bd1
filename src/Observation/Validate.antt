-- ===== src/Observation/Validate.antt =====
-- src/core/observation.c: the validation of an observation.
pub mod Sample
use obicall.Common.{
  ℕ, zero, suc, ◌+◌, ◌-◌, ◌*◌, ◌≡◌, Bool, true, false, not, ◌&&◌, ◌||◌, List, [], ◌∷◌, ◌++◌, map,
  Option, none, some, ltb, ◌≤◌, ◌==◌, if◌then◌else◌, get_elem?, set, replicate, take, flatten,
  arith,
}
use obicall.Observation.{
  Observation, max_payload_doubles, max_cov_doubles, sensor_id_len, sizeof_observation,
}
use obicall.Observation.Doubles.{Arithmetic, is_finite, fabs, negate, f64_lt}
use obicall.Status.{
  Status, Result, ok, err, invalid_argument, unsupported, validation_timing, validation_dimension,
  validation_non_finite, validation_covariance,
}

pub payload_shape_dimension : ℕ → ℕ
payload_shape_dimension shape =
    if shape == 1
    then 1
    else if shape == 2
    then 2
    else if shape == 3
    then 4
    else if shape == 4
    then 1
    else 0

-- `issue_none` and `dimension_mismatch` are not reported by any test.
pub data Issue : Type 0 where
  issue_none dimension_mismatch : Issue
  non_finite_payload non_finite_covariance payload_count_out_of_range
        covariance_count_out_of_range :
      Issue
  covariance_not_symmetric covariance_not_psd sensor_id_empty unsupported_frame_or_units : Issue
  time_uncertainty_negative struct_size_mismatch : Issue

-- An element of an array, inside its bounds.
abbrev pub at : List ℕ → ℕ → ℕ
at xs i = elim (get_elem? xs i) [ none ↦ 0 | some x ↦ x ]

-- `1e-9` and `1.0`
abbrev epsilon : ℕ
epsilon = 0x3E112E0BE826D695

abbrev one : ℕ
one = 0x3FF0000000000000

-- Some element among the first `n` is the byte 0.
pub has_terminator : ℕ → List ℕ → Bool
has_terminator zero cs = false
has_terminator (suc n) [] = false
has_terminator (suc n) (c ∷ cs) = c == 0 || has_terminator n cs

pub all_finite : List ℕ → Bool
all_finite [] = true
all_finite (x ∷ xs) = is_finite x && all_finite xs

module _ (arithmetic : Arithmetic) where
  -- `l[i][k]` stands at `i * 6 + k`. The loop over `k`, from `k` on.
  cholesky_sum : List ℕ → ℕ → ℕ → ℕ → ℕ → ℕ → ℕ
  cholesky_sum l i j zero k sum = sum
  cholesky_sum l i j (suc n) k sum =
      cholesky_sum l i j n (suc k)
        (arithmetic.sub sum (arithmetic.mul (at l (i * 6 + k)) (at l (j * 6 + k))))

  -- The loop over `j`, from `j` on: the matrix, unless a diagonal sum is below zero.
  cholesky_row : List ℕ → ℕ → ℕ → ℕ → ℕ → List ℕ → Option (List ℕ)
  cholesky_row cov dim i zero j l = some l
  cholesky_row cov dim i (suc n) j l =
      let sum = cholesky_sum l i j j 0 (at cov (i * dim + j)) in
      let pivot = at l (j * 6 + j) in
      let entry =
        if i == j
        then (if f64_lt 0 sum then arithmetic.sqrt sum else 0)
        else if f64_lt epsilon pivot
        then arithmetic.div sum pivot
        else 0 in
      let rest = cholesky_row cov dim i n (suc j) (set l (i * 6 + j) entry) in
      if i == j && f64_lt sum (negate epsilon) then none else rest

  -- The loop over `i`, from `i` on.
  cholesky_rows : List ℕ → ℕ → ℕ → ℕ → List ℕ → Bool
  cholesky_rows cov dim zero i l = true
  cholesky_rows cov dim (suc n) i l = elim (cholesky_row cov dim i (suc i) 0 l) [
    | none ↦ false
    | some rows ↦ cholesky_rows cov dim n (suc i) rows
  ]

  pub covariance_is_psd : List ℕ → ℕ → Bool
  covariance_is_psd cov dim = cholesky_rows cov dim dim 0 (replicate 36 0)

  -- `fabs(a - b) > 1e-9 * (1.0 + fabs(a) + fabs(b))`
  is_apart : ℕ → ℕ → Bool
  is_apart a b =
      f64_lt (arithmetic.mul epsilon (arithmetic.add (arithmetic.add one (fabs a)) (fabs b)))
        (fabs (arithmetic.sub a b))

  -- The loop over `j`, from `j` on.
  row_is_symmetric : List ℕ → ℕ → ℕ → ℕ → ℕ → Bool
  row_is_symmetric cov dim i zero j = true
  row_is_symmetric cov dim i (suc n) j =
      not (is_apart (at cov (i * dim + j)) (at cov (j * dim + i)))
      && row_is_symmetric cov dim i n (suc j)

  rows_are_symmetric : List ℕ → ℕ → ℕ → ℕ → Bool
  rows_are_symmetric cov dim zero i = true
  rows_are_symmetric cov dim (suc n) i =
      row_is_symmetric cov dim i dim 0 && rows_are_symmetric cov dim n (suc i)

  pub is_symmetric : List ℕ → ℕ → Bool
  is_symmetric cov dim = rows_are_symmetric cov dim dim 0

  -- `NOTE(issue, error)` if the condition holds.
  abbrev pub note_if : Bool → Issue → Status → List (Issue × Status)
  note_if bad issue error = if bad then (issue, error) ∷ [] else []

  unfoldable pub payload_notes : Observation → ℕ → List (Issue × Status)
  payload_notes obs dim =
      if dim == 0 || not (obs.payload_count == dim) || ltb max_payload_doubles obs.payload_count
      then (payload_count_out_of_range, validation_dimension) ∷ []
      else note_if (not (all_finite (take obs.payload_count obs.payload))) non_finite_payload
          validation_non_finite

  unfoldable pub covariance_notes : Observation → ℕ → List (Issue × Status)
  covariance_notes obs dim =
      if dim == 0
        || not (obs.covariance_count == dim * dim)
        || ltb max_cov_doubles obs.covariance_count
      then (covariance_count_out_of_range, validation_covariance) ∷ []
      else if not (all_finite (take obs.covariance_count obs.covariance))
      then (non_finite_covariance, validation_non_finite) ∷ []
      else if not (is_symmetric obs.covariance dim)
      then (covariance_not_symmetric, validation_covariance) ∷ []
      else note_if (not (covariance_is_psd obs.covariance dim)) covariance_not_psd
          validation_covariance

  -- The issues in the order in which they are reported.
  unfoldable pub note_parts : Observation → List (List (Issue × Status))
  note_parts obs =
      let dim = payload_shape_dimension obs.payload_shape in
      (note_if (not (obs.struct_size == sizeof_observation)) struct_size_mismatch invalid_argument
        ∷ note_if (at obs.sensor_id 0 == 0) sensor_id_empty invalid_argument
        ∷ note_if (not (has_terminator sensor_id_len obs.sensor_id)) sensor_id_empty
            invalid_argument
        ∷ note_if (obs.coordinate_frame == 0 || obs.units == 0) unsupported_frame_or_units
            unsupported
        ∷ note_if (not (is_finite obs.time_uncertainty_s) || f64_lt obs.time_uncertainty_s 0)
            time_uncertainty_negative validation_timing
        ∷ payload_notes obs dim
        ∷ covariance_notes obs dim
        ∷ [])

  unfoldable pub notes : Observation → List (Issue × Status)
  notes obs = flatten (note_parts obs)

  -- The first error, if there is one.
  abbrev pub first_error : List (Issue × Status) → Result (Unit {0})
  first_error [] = ok tt
  first_error ((issue, error) ∷ rest) = err error

  unfoldable pub observation_validate : Observation → Result (Unit {0})
  observation_validate obs = first_error (notes obs)
