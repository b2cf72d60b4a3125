-- ===== src/Condition/Process/Clean.antt =====
-- Process (internal/condition/condition.go) on a modest batch: what internal/compute needs of its
-- input.
use twinval_go_backend.Prelude.{ℕ, ◌*◌, ◌^◌, ◌≤◌, inl, inr, All_mono, Option-cases, length}
use twinval_go_backend.Prelude.Maps.{lookup}
use twinval_go_backend.Float.{Float64, IsIeee, IsNum, IsFinite, fl, decimal, ◌⊕◌, ◌⊖◌, ◌⊗◌}
use twinval_go_backend.Float.Order.{unit-IsFinite}
use twinval_go_backend.Compute.Configs.{AllIndicatorConfigs}
use twinval_go_backend.Compute.Indicators.{wohler_power}
use twinval_go_backend.Compute.Valid.{IsClean}
use twinval_go_backend.Float.Within.{Within, Within_mono, Within-IsFinite}
use twinval_go_backend.Condition.Types.{
  SensorType, RawSensorBatch, PropertyMeta, ConditioningConfig, sensor_vibration, sensor_strain,
  sensor_temperature, sensor_humidity, sensor_pm25, sensor_occupancy, sensor_electrical,
  sensor_water,
}
use twinval_go_backend.Condition.Groups.{Sorting, values_at}
use twinval_go_backend.Condition.Groups.Members.{SortsStrings}
use twinval_go_backend.Condition.Preprocess.{align_timestamps}
use twinval_go_backend.Condition.Preprocess.Align.{Sorts}
use twinval_go_backend.Condition.Integrity.Bounds.{normalise-IsUnit}
use twinval_go_backend.Condition.Integrity.Report.{
  HasRange, IsSettled, IsModest, IsScored, few_lem, run_integrity_checks-IsScored,
}
use twinval_go_backend.Condition.Process.Streams.{
  denoise_all_streams-Within, align_timestamps-Within, snapshot_mean-Within,
}
use twinval_go_backend.Condition.Process.{
  denoise_all_streams, group_snapshot_by_type, mean_or_zero, normalise_from_bounds, process,
}

-- The settings of the indicators for which no Wöhler power of a number up to 10^9 overflows: math.Pow
-- of a finite base and exponent is +Inf only beyond 1.8 * 10^308.
pub record IsCalibrated {W : Type 0} ⦃d : Float64 W⦄ (cfgs : AllIndicatorConfigs W) : Type 0 where
  pub vibration_power :
      (x : W)
      → Within (10 ^ 9) x
      → IsFinite (fl 1 ⊕ wohler_power x cfgs.shf.vibration_normal_ceiling cfgs.shf.wohler_exponent)
  pub strain_power :
      (x : W)
      → Within (10 ^ 9) x
      → IsFinite (fl 1 ⊕ wohler_power x cfgs.shf.strain_normal_ceiling cfgs.shf.wohler_exponent)

-- The age of a property, and the factor that its maintenance makes of it, are finite.
pub record IsAged {W : Type 0} ⦃d : Float64 W⦄ (cfgs : AllIndicatorConfigs W) (m : PropertyMeta W)
    : Type 0 where
  pub age : IsFinite m.chronological_age
  pub factor : IsFinite (
      fl 1
      ⊖ m.maintenance_sensitivity
        ⊗ cfgs.pdp.effective_age_reduction_rate
        ⊗ (m.condition_quality ⊖ decimal 5000)
        ⊗ fl 2)

module _ {W : Type 0} ⦃d : Float64 W⦄ (laws : IsIeee W) (lib : Sorting W) (sorts : Sorts W lib)
    (sorts_strings : SortsStrings lib.sort_strings) where
  normalised-IsNum :
      (m : ℕ) (v : W) (cfg : ConditioningConfig W) (t : SensorType)
      → m ≤ 10 ^ 9
      → HasRange cfg t
      → Within m v
      → IsNum (normalise_from_bounds v cfg t)
  unfolding normalise_from_bounds
  normalised-IsNum m v cfg t h range w =
      let f = Within-IsFinite laws m v h w in
      elim (Option-cases (lookup t cfg.bounds)) [
        | inl e ↦ rw (normalise_from_bounds, e) f.0
        | inr (r, e) ↦
            let q = range r e in
            rw (normalise_from_bounds, e)
              (unit-IsFinite laws _ (normalise-IsUnit laws v r.low r.high f q.0 (q.1, q.2))).0
      ]

  -- Process, under settled settings, of a modest batch: what internal/compute takes for granted of
  -- its input holds of the result, and the integrity scores lie from 0.0 to 1.0.
  pub process-IsClean :
      (b : ℕ) (batch : RawSensorBatch W) (cfg : ConditioningConfig W) (cfgs : AllIndicatorConfigs W)
      → IsSettled cfg
      → IsCalibrated cfgs
      → IsModest b batch
      → IsAged cfgs batch.property_meta
      → IsClean cfgs (process lib batch cfg).0 × IsScored b (process lib batch cfg).1
  unfolding process
  process-IsClean b batch cfg cfgs c k m a =
      let n = length batch.readings in
      let (square, product, single, whole) = few_lem n b m.positive m.few in
      let report = run_integrity_checks-IsScored laws lib sorts sorts_strings b batch cfg c m in
      let smoothed = denoise_all_streams lib batch.readings cfg.ema_alpha in
      let (p, p_few) =
        denoise_all_streams-Within laws lib sorts sorts_strings cfg.ema_alpha b batch.readings
          c.alpha product (All_mono (λ r q. q.0) batch.readings m.readings) in
      let snapshot = align_timestamps lib (fl 0) smoothed batch.window_end_ns in
      let (q, q_few) =
        align_timestamps-Within laws lib sorts sorts_strings (n * b) (n * n) smoothed
          batch.window_end_ns p p_few in
      let at : (t : SensorType)
          → Within (n * b)
              (mean_or_zero (values_at t (group_snapshot_by_type lib smoothed snapshot))) =
        λ t.
          snapshot_mean-Within laws lib sorts sorts_strings (n * b) (n * n) smoothed snapshot t
            whole square q q_few in
      let finite : (x : W) → Within (n * b) x → IsFinite x =
        λ x w. Within-IsFinite laws (n * b) x product w in
      let large : (x : W) → Within (n * b) x → Within (10 ^ 9) x =
        λ x w. Within_mono laws (n * b) (10 ^ 9) x product w in
      (
        record {
          vibration = finite _ (at sensor_vibration);
          strain = finite _ (at sensor_strain);
          vibration_power = k.vibration_power _ (large _ (at sensor_vibration));
          strain_power = k.strain_power _ (large _ (at sensor_strain));
          temperature = finite _ (at sensor_temperature);
          humidity = finite _ (at sensor_humidity);
          air_quality = finite _ (at sensor_pm25);
          occupancy =
              normalised-IsNum (n * b) _ cfg sensor_occupancy product c.occupancy
                (at sensor_occupancy);
          electrical =
              normalised-IsNum (n * b) _ cfg sensor_electrical product c.electrical
                (at sensor_electrical);
          water = normalised-IsNum (n * b) _ cfg sensor_water product c.water (at sensor_water);
          uptime = (unit-IsFinite laws _ report.uptime_continuity).0;
          consistency = (unit-IsFinite laws _ report.cross_sensor_consistency).0;
          calibration = Within-IsFinite laws b _ m.bound report.calibration_recency;
          tamper = (unit-IsFinite laws _ report.tamper_score).0;
          age = a.age;
          age_factor = a.factor;
        },
        report,
      )
