-- ===== src/Condition/Integrity.antt =====
-- internal/condition/integrity.go.
pub mod Bounds
pub mod Means
pub mod Consistency
pub mod Tampering
pub mod Report
use twinval_go_backend.Prelude.{
  ℕ, zero, suc, ◌+◌, ◌-◌, ◌*◌, ◌%◌, ◌^◌, Bool, true, false, Option, none, some, List, [], ◌∷◌, ◌++◌,
  map, length, if◌then◌else◌, ltb, ◌==◌,
}
use twinval_go_backend.Prelude.Int.{ℤ, pos, negsuc}
use twinval_go_backend.Prelude.Text.{Text}
use twinval_go_backend.Float.{Float64, fl, ◌⊕◌, ◌⊖◌, ◌⊘◌, ◌<?◌, ◌≤?◌}
use twinval_go_backend.Float.Order.{clamp}
use twinval_go_backend.Condition.Types.{
  SensorType, RawSensorReading, RawSensorBatch, ConditioningConfig, IntegrityReport,
}
use twinval_go_backend.Prelude.Maps.{lookup, keys}
use twinval_go_backend.Condition.Groups.{Sorting, group_by, in_order}

-- An int64 from its 64 bits, and the product of an int64 and a length.
abbrev pub to_int64 : ℕ → ℤ
to_int64 m = if ltb m (2 ^ 63) then pos m else negsuc (2 ^ 64 - 1 - m)

abbrev pub times_length : ℤ → ℕ → ℤ
times_length (pos n) k = to_int64 ((n * k) % 2 ^ 64)
times_length (negsuc n) k = to_int64 ((2 ^ 64 - (suc n * k) % 2 ^ 64) % 2 ^ 64)

module _ {W : Type 0} ⦃d : Float64 W⦄ where
  -- `float64(n)`. The difference from 0.0 is exact.
  abbrev of_int : ℤ → W
  of_int (pos n) = fl n
  of_int (negsuc n) = fl 0 ⊖ fl (suc n)

  -- `sum += v` over the values.
  unfoldable pub sum_from : W → List W → W
  sum_from acc [] = acc
  sum_from acc (v ∷ vs) = sum_from (acc ⊕ v) vs

  abbrev pub mean : List W → W
  mean vs = sum_from (fl 0) vs ⊘ fl (length vs)

  unfoldable pub mean_or_default : List W → W → W
  mean_or_default [] def = def
  mean_or_default (v ∷ vs) def = mean (v ∷ vs)

  unfoldable pub check_uptime_continuity : ℤ → ℤ → W
  check_uptime_continuity received (pos zero) = fl 1
  check_uptime_continuity received (pos (suc n)) =
      clamp (of_int received ⊘ fl (suc n)) (fl 0) (fl 1)
  check_uptime_continuity received (negsuc n) = fl 1

  -- The spread between the least and the greatest mean, from `lo` and `hi` on.
  unfoldable pub spread_of : W → W → List W → W
  spread_of lo hi [] = hi ⊖ lo
  spread_of lo hi (m ∷ ms) = spread_of (if m <? lo then m else lo) (if hi <? m then m else hi) ms

  -- The penalty of a zone from the means of its sensors: none below two sensors.
  unfoldable pub zone_penalty : W → List W → List W
  zone_penalty tolerance [] = []
  zone_penalty tolerance (m ∷ []) = []
  zone_penalty tolerance (m ∷ n ∷ ms) = (spread_of m m (n ∷ ms) ⊘ tolerance) ∷ []

  -- The mean of every sensor of a zone.
  unfoldable pub sensor_means : Sorting W → List (RawSensorReading W) → List W
  sensor_means lib readings =
      map
        (λ (g : Text × List (RawSensorReading W)).
          mean (map (λ (r : RawSensorReading W). r.value) g.1))
        (in_order lib.sort_strings (group_by (λ (r : RawSensorReading W). r.sensor_id) readings))

  unfoldable pub zone_penalties : Sorting W → W → List (Text × List (RawSensorReading W)) → List W
  zone_penalties lib tolerance [] = []
  zone_penalties lib tolerance ((zone, readings) ∷ zones) =
      zone_penalty tolerance (sensor_means lib readings) ++ zone_penalties lib tolerance zones

  -- The score from the penalties.
  unfoldable pub consistency_score : List W → W
  consistency_score [] = fl 1
  consistency_score (p ∷ ps) = clamp (fl 1 ⊖ mean (p ∷ ps)) (fl 0) (fl 1)

  unfoldable pub check_cross_consistency : Sorting W → List (RawSensorReading W) → W → W
  check_cross_consistency lib readings tolerance =
      if tolerance ≤? fl 0
      then fl 1
      else consistency_score (
          zone_penalties lib tolerance
            (in_order lib.sort_strings (group_by (λ (r : RawSensorReading W). r.zone) readings)))

  -- Flags and pairs of one series, after a reading with the value `previous`.
  unfoldable pub tamper_from : W → W → List (RawSensorReading W) → ℕ × ℕ → ℕ × ℕ
  tamper_from limit previous [] counts = counts
  tamper_from limit previous (r ∷ rs) (flags, pairs) =
      tamper_from limit r.value rs
        ((if limit <? d.abs (r.value ⊖ previous) then flags + 1 else flags), pairs + 1)

  unfoldable pub tamper_series : W → List (RawSensorReading W) → ℕ × ℕ → ℕ × ℕ
  unfolding tamper_from
  tamper_series limit [] counts = counts
  tamper_series limit (r ∷ rs) counts = tamper_from limit r.value rs counts

  unfoldable pub tamper_counts :
      Sorting W → W → List (Text × List (RawSensorReading W)) → ℕ × ℕ → ℕ × ℕ
  unfolding tamper_series
  tamper_counts lib limit [] counts = counts
  tamper_counts lib limit ((id, series) ∷ groups) counts =
      tamper_counts lib limit groups (tamper_series limit (lib.sort_by_timestamp series) counts)

  -- The score from the counts of flags and pairs. It has no upper test.
  unfoldable pub tamper_score_of : ℕ × ℕ → W
  tamper_score_of (flags, pairs) =
      let score = fl 1 ⊖ fl flags ⊘ fl pairs in
      if pairs == 0 then fl 1 else if score <? fl 0 then fl 0 else score

  unfoldable pub check_tamper : Sorting W → List (RawSensorReading W) → W → W
  unfolding tamper_counts tamper_score_of
  check_tamper lib readings step_limit =
      if step_limit ≤? fl 0
      then fl 1
      else tamper_score_of (
          tamper_counts lib step_limit
            (in_order lib.sort_strings
              (group_by (λ (r : RawSensorReading W). r.sensor_id) readings))
            (0, 0))

  -- The scores of the types that have a limit configured.
  unfoldable pub scores :
      (List (RawSensorReading W) → W → W)
      → List (SensorType × W)
      → List (SensorType × List (RawSensorReading W))
      → List W
  scores check limits [] = []
  scores check limits ((t, readings) ∷ groups) =
      let rest = scores check limits groups in
      elim (lookup t limits) [ none ↦ rest | some limit ↦ check readings limit ∷ rest ]

  unfoldable pub run_integrity_checks :
      Sorting W → RawSensorBatch W → ConditioningConfig W → IntegrityReport W
  unfolding check_uptime_continuity check_cross_consistency check_tamper scores mean_or_default
  run_integrity_checks lib batch cfg =
      let sensors = keys (group_by (λ (r : RawSensorReading W). r.sensor_id) batch.readings) in
      let by_type =
        in_order lib.sort_strings
          (group_by (λ (r : RawSensorReading W). r.sensor_type) batch.readings) in
      record {
        uptime_continuity =
            check_uptime_continuity (pos (length batch.readings))
              (times_length batch.expected_readings_per_sensor (length sensors));
        cross_sensor_consistency =
            mean_or_default
              (scores (check_cross_consistency lib) cfg.consistency_tolerances by_type) (fl 1);
        calibration_recency =
            mean_or_default
              (map (λ (r : RawSensorReading W). r.calibration_days_ago) batch.readings) (fl 0);
        tamper_score =
            mean_or_default (scores (check_tamper lib) cfg.tamper_step_limits by_type) (fl 1);
      }
