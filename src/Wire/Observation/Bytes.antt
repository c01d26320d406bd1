-- ===== src/Wire/Observation/Bytes.antt =====
-- src/core/wire.c: what an encoded observation consists of.
use obicall.Common.{
  ◌^◌, ◌<◌, ◌≤◌, ◌≡◌, ℕ, List, to_unsigned, refl, sym, subst, All, All-any, take, length,
}
use obicall.Cursor.Octets.{IsByte, octets, octets-IsByte}
use obicall.Cursor.Writes.{fields-IsByte, each_field-IsByte, encode_with-ok}
use obicall.Observation.{Observation, IsObservation}
use obicall.Status.{ok, buffer_too_small}
use obicall.Wire.Observation.{encode_observation, observation_layout, f64s}
use obicall.Wire.Observation.RoundTrip.{encode_observation-ok, observation_writers-Writes}

f64s-IsByte : (n : ℕ) (xs : List ℕ) → All IsByte (f64s n xs)
f64s-IsByte n xs =
    each_field-IsByte (octets 8) (λ x. x ≡ x) (take n xs) (λ x u. octets-IsByte 8 x)
      (All-any (λ (x : ℕ). x ≡ x) (take n xs) (λ x. refl))

observation_layout-IsByte :
    (obs : Observation) → IsObservation obs → All IsByte (observation_layout obs)
unfolding observation_layout
observation_layout-IsByte obs v = fields-IsByte _ (
  octets-IsByte 4 obs.struct_size,
  (
    octets-IsByte 4 obs.schema_version,
    (
      v.sensor_id_bytes,
      (
        octets-IsByte 8 obs.source_boot_id,
        (
          octets-IsByte 8 obs.sequence,
          (
            octets-IsByte 8 (to_unsigned 63 obs.sample_time_ns),
            (
              octets-IsByte 8 (to_unsigned 63 obs.arrival_time_ns),
              (
                octets-IsByte 4 obs.clock_domain,
                (
                  octets-IsByte 8 obs.time_uncertainty_s,
                  (
                    octets-IsByte 4 obs.coordinate_frame,
                    (
                      octets-IsByte 4 obs.units,
                      (
                        octets-IsByte 4 obs.calibration_version,
                        (
                          octets-IsByte 4 obs.payload_shape,
                          (
                            octets-IsByte 4 obs.payload_count,
                            (
                              f64s-IsByte obs.payload_count obs.payload,
                              (
                                octets-IsByte 4 obs.covariance_count,
                                (f64s-IsByte obs.covariance_count obs.covariance, tt),
                              ),
                            ),
                          ),
                        ),
                      ),
                    ),
                  ),
                ),
              ),
            ),
          ),
        ),
      ),
    ),
  ),
)

-- An encoded observation is its wire format, in bytes, and fits the buffer.
pub encode_observation-bytes :
    (obs : Observation) (out_cap : ℕ) (bs : List ℕ)
    → IsObservation obs
    → out_cap < 2 ^ 32
    → encode_observation obs out_cap ≡ ok bs
    → All IsByte bs × (length bs ≤ out_cap)
encode_observation-bytes obs out_cap bs v word done =
    let (hp, hc, plain) = encode_observation-ok obs out_cap bs done in
    let (same, short) =
      encode_with-ok buffer_too_small out_cap _ _ bs (observation_writers-Writes obs) word plain in
    (subst (All IsByte) (sym same) (observation_layout-IsByte obs v), short)
