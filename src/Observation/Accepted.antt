-- ===== src/Observation/Accepted.antt =====
-- src/core/observation.c: what an observation that is accepted satisfies.
use obicall.Common.{
  ℕ, ◌*◌, ◌≤◌, ◌≡◌, refl, sym, ap, ◌∙◌, Bool, true, false, not, ◌||◌, List, [], ◌∷◌, flatten_none,
  ◌==◌, take, arith,
}
use obicall.Observation.{
  Observation, max_payload_doubles, max_cov_doubles, sensor_id_len, sizeof_observation,
}
use obicall.Observation.Doubles.{Arithmetic, is_finite, f64_lt}
use obicall.Observation.Validate.{
  payload_shape_dimension, at, has_terminator, all_finite, is_symmetric, covariance_is_psd, Issue,
  note_if, payload_notes, covariance_notes, note_parts, notes, first_error, observation_validate,
  struct_size_mismatch, sensor_id_empty, unsupported_frame_or_units, time_uncertainty_negative,
}
use obicall.Status.{Status, ok, invalid_argument, unsupported, validation_timing}

module _ (arithmetic : Arithmetic) where
  -- What an accepted observation satisfies.
  pub record IsAccepted (obs : Observation) : Type 0 where
    pub own_layout : obs.struct_size ≡ sizeof_observation
    pub named : (at obs.sensor_id 0 == 0) ≡ false
    pub terminated : has_terminator sensor_id_len obs.sensor_id ≡ true
    pub framed : (obs.coordinate_frame == 0) ≡ false
    pub in_units : (obs.units == 0) ≡ false
    pub timed : is_finite obs.time_uncertainty_s ≡ true
    pub payload_dimension : obs.payload_count ≡ payload_shape_dimension obs.payload_shape
    pub payload_fits : obs.payload_count ≤ max_payload_doubles
    pub payload_finite : all_finite (take obs.payload_count obs.payload) ≡ true
    pub covariance_dimension : obs.covariance_count ≡ obs.payload_count * obs.payload_count
    pub covariance_fits : obs.covariance_count ≤ max_cov_doubles
    pub covariance_finite : all_finite (take obs.covariance_count obs.covariance) ≡ true
    pub symmetric : is_symmetric arithmetic obs.covariance obs.payload_count ≡ true
    pub semi_definite : covariance_is_psd arithmetic obs.covariance obs.payload_count ≡ true

  -- Each part of the notes of an observation without notes is empty.
  module _ (obs : Observation) where
    accepted_payload :
        (dim : ℕ)
        → payload_notes arithmetic obs dim ≡ []
        → (obs.payload_count ≡ dim)
          × (obs.payload_count ≤ max_payload_doubles)
          × (all_finite (take obs.payload_count obs.payload) ≡ true)
    unfolding payload_notes
    accepted_payload dim h = ground arith

    accepted_covariance :
        (dim : ℕ)
        → covariance_notes arithmetic obs dim ≡ []
        → (obs.covariance_count ≡ dim * dim)
          × (obs.covariance_count ≤ max_cov_doubles)
          × (all_finite (take obs.covariance_count obs.covariance) ≡ true)
          × (is_symmetric arithmetic obs.covariance dim ≡ true)
          × (covariance_is_psd arithmetic obs.covariance dim ≡ true)
    unfolding covariance_notes
    accepted_covariance dim h = ground arith

    note_if-none :
        (bad : Bool) (issue : Issue) (error : Status)
        → note_if arithmetic bad issue error ≡ []
        → bad ≡ false
    note_if-none true issue error h = absurd cc
    note_if-none false issue error h = refl

    first_error-none : (ns : List (Issue × Status)) → first_error arithmetic ns ≡ ok tt → ns ≡ []
    first_error-none [] h = refl
    first_error-none ((issue, error) ∷ ns) h = absurd cc

    -- An observation that validation accepts has this host's layout, a name that ends inside its
    -- array, a frame and units, a finite time uncertainty, as many values as its shape has dimensions
    -- and the square of that in its covariance, all finite and within the arrays, and its
    -- covariance passed the tests of symmetry and of the factorisation.
    pub observation_validate-IsAccepted :
        observation_validate arithmetic obs ≡ ok tt → IsAccepted obs
    unfolding observation_validate notes note_parts
    observation_validate-IsAccepted h =
        let dim = payload_shape_dimension obs.payload_shape in
        let (size, (first_byte, (last_byte, (frame, (time, (payload, (covariance, end))))))) =
          flatten_none (note_parts arithmetic obs) (first_error-none (notes arithmetic obs) h) in
        let (p_dim, p_fits, p_finite) = accepted_payload dim payload in
        let (c_dim, c_fits, c_finite, c_symmetric, c_psd) = accepted_covariance dim covariance in
        let no_size =
          note_if-none (not (obs.struct_size == sizeof_observation)) struct_size_mismatch
            invalid_argument size in
        let no_last =
          note_if-none (not (has_terminator sensor_id_len obs.sensor_id)) sensor_id_empty
            invalid_argument last_byte in
        let no_frame =
          note_if-none (obs.coordinate_frame == 0 || obs.units == 0) unsupported_frame_or_units
            unsupported frame in
        let no_time =
          note_if-none (not (is_finite obs.time_uncertainty_s) || f64_lt obs.time_uncertainty_s 0)
            time_uncertainty_negative validation_timing time in
        record {
          own_layout = ground arith;
          named =
              note_if-none (at obs.sensor_id 0 == 0) sensor_id_empty invalid_argument first_byte;
          terminated = ground arith;
          framed = ground arith;
          in_units = ground arith;
          timed = ground arith;
          payload_dimension = p_dim;
          payload_fits = p_fits;
          payload_finite = p_finite;
          covariance_dimension = c_dim ∙ ap (λ (n : ℕ). n * n) (sym p_dim);
          covariance_fits = c_fits;
          covariance_finite = c_finite;
          symmetric = ap (is_symmetric arithmetic obs.covariance) p_dim ∙ c_symmetric;
          semi_definite = ap (covariance_is_psd arithmetic obs.covariance) p_dim ∙ c_psd;
        }
