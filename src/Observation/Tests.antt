-- ===== src/Observation/Tests.antt =====
-- Runs of the validation.
use obicall.Observation.Accepted.{IsAccepted, observation_validate-IsAccepted}
use obicall.Observation.Validate.Sample.{coarse, range, range-valid}

observation_validate-IsAccepted_example : IsAccepted coarse range
observation_validate-IsAccepted_example = observation_validate-IsAccepted coarse range range-valid
