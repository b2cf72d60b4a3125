-- ===== src/Condition/Process.antt =====
-- internal/condition/condition.go: the whole pipeline.
pub mod Streams
pub mod Clean
pub mod Defaults
pub mod Met
use twinval_go_backend.Prelude.{none, some, List, [], ◌∷◌, ◌++◌, map, if◌then◌else◌}
use twinval_go_backend.Prelude.Text.{Text, text_eq}
use twinval_go_backend.Float.{Float64, fl}
use twinval_go_backend.Compute.Types.{ConditionedData}
use twinval_go_backend.Condition.Types.{
  SensorType, RawSensorReading, RawSensorBatch, ConditioningConfig, IntegrityReport,
  sensor_vibration, sensor_strain, sensor_temperature, sensor_humidity, sensor_pm25,
  sensor_occupancy, sensor_electrical, sensor_water,
}
use twinval_go_backend.Prelude.Maps.{lookup, keys}
use twinval_go_backend.Condition.Groups.{Sorting, values_at, group_by, append_at, in_order}
use twinval_go_backend.Condition.Preprocess.{denoise, normalise, align_timestamps}
use twinval_go_backend.Condition.Integrity.{mean_or_default, run_integrity_checks}

module _ {W : Type 0} ⦃d : Float64 W⦄ where
  -- `series[i].Value = smoothed[i]`.
  abbrev pub with_values : List (RawSensorReading W) → List W → List (RawSensorReading W)
  with_values [] vs = []
  with_values (r ∷ rs) [] = r ∷ rs
  with_values (r ∷ rs) (v ∷ vs) = record r { value = v } ∷ with_values rs vs

  abbrev pub denoise_series : W → List (RawSensorReading W) → List (RawSensorReading W)
  denoise_series alpha series =
      with_values series (denoise (map (λ (r : RawSensorReading W). r.value) series) alpha)

  abbrev pub flatten : List (List (RawSensorReading W)) → List (RawSensorReading W)
  flatten [] = []
  flatten (rs ∷ rss) = rs ++ flatten rss

  unfoldable pub denoise_all_streams :
      Sorting W → List (RawSensorReading W) → W → List (RawSensorReading W)
  denoise_all_streams lib readings alpha = flatten (
      map
        (λ (g : Text × List (RawSensorReading W)). denoise_series alpha (lib.sort_by_timestamp g.1))
        (in_order lib.sort_strings (group_by (λ (r : RawSensorReading W). r.sensor_id) readings)))

  -- The type of a sensor is that of its last reading, "" for none.
  unfoldable pub type_of : Text → List (RawSensorReading W) → SensorType → SensorType
  type_of id [] found = found
  type_of id (r ∷ rs) found =
      type_of id rs (if text_eq r.sensor_id id then r.sensor_type else found)

  -- The loop over the sorted sensor IDs.
  unfoldable pub by_type_onto :
      List (RawSensorReading W)
      → List (Text × W)
      → List (SensorType × List W)
      → List Text
      → List (SensorType × List W)
  unfolding type_of append_at
  by_type_onto smoothed snapshot m [] = m
  by_type_onto smoothed snapshot m (id ∷ ids) =
      let value : W = elim (lookup id snapshot) [ none ↦ fl 0 | some v ↦ v ] in
      by_type_onto smoothed snapshot (append_at (type_of id smoothed []) value m) ids

  unfoldable pub group_snapshot_by_type :
      Sorting W → List (RawSensorReading W) → List (Text × W) → List (SensorType × List W)
  unfolding by_type_onto
  group_snapshot_by_type lib smoothed snapshot =
      by_type_onto smoothed snapshot [] (lib.sort_strings (keys snapshot))

  abbrev pub mean_or_zero : List W → W
  mean_or_zero vs = mean_or_default vs (fl 0)

  unfoldable pub normalise_from_bounds : W → ConditioningConfig W → SensorType → W
  normalise_from_bounds value cfg t = elim (lookup t cfg.bounds) [
    | none ↦ value
    | some b ↦ normalise value b.low b.high
  ]

  unfoldable pub process :
      Sorting W → RawSensorBatch W → ConditioningConfig W → ConditionedData W × IntegrityReport W
  unfolding denoise_all_streams align_timestamps group_snapshot_by_type run_integrity_checks
  process lib batch cfg =
      let smoothed = denoise_all_streams lib batch.readings cfg.ema_alpha in
      let snapshot = align_timestamps lib (fl 0) smoothed batch.window_end_ns in
      let type_values = group_snapshot_by_type lib smoothed snapshot in
      let integrity = run_integrity_checks lib batch cfg in
      (
        record {
          vibration_magnitude = mean_or_zero (values_at sensor_vibration type_values);
          strain_magnitude = mean_or_zero (values_at sensor_strain type_values);
          temperature = mean_or_zero (values_at sensor_temperature type_values);
          humidity = mean_or_zero (values_at sensor_humidity type_values);
          air_quality_pm = mean_or_zero (values_at sensor_pm25 type_values);
          occupancy_ratio =
              normalise_from_bounds (mean_or_zero (values_at sensor_occupancy type_values)) cfg
                sensor_occupancy;
          electrical_load =
              normalise_from_bounds (mean_or_zero (values_at sensor_electrical type_values)) cfg
                sensor_electrical;
          water_consumption =
              normalise_from_bounds (mean_or_zero (values_at sensor_water type_values)) cfg
                sensor_water;
          uptime_continuity = integrity.uptime_continuity;
          cross_sensor_consistency = integrity.cross_sensor_consistency;
          calibration_recency = integrity.calibration_recency;
          tamper_score = integrity.tamper_score;
          chronological_age = batch.property_meta.chronological_age;
          maintenance_sensitivity = batch.property_meta.maintenance_sensitivity;
          condition_quality = batch.property_meta.condition_quality;
        },
        integrity,
      )
