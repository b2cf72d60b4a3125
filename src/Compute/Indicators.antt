-- ===== src/Compute/Indicators.antt =====
-- internal/compute/indicators.go: the computations.
use twinval_go_backend.Prelude.{◌&&◌, if◌then◌else◌}
use twinval_go_backend.Float.{Float64, fl, ◌⊕◌, ◌⊖◌, ◌⊗◌, ◌⊘◌, ◌≤?◌}
use twinval_go_backend.Float.Order.{clamp}
use twinval_go_backend.Compute.Types.{
  ConditionedData, TechnicalIndicators, HealthFactor, BaselineMarketValue,
}
use twinval_go_backend.Compute.Configs.{
  ShfConfig, EsfConfig, UssConfig, PdpConfig, CiConfig, AllIndicatorConfigs,
}

module _ {W : Type 0} ⦃d : Float64 W⦄ where
  -- The normalised excess of a reading over its ceiling, to the power of the exponent.
  abbrev pub wohler_power : W → W → W → W
  wohler_power reading normal_ceiling exponent =
      d.pow ((reading ⊖ normal_ceiling) ⊘ normal_ceiling) exponent

  unfoldable pub wohler_penalty : W → W → W → W
  wohler_penalty reading normal_ceiling exponent =
      if reading ≤? normal_ceiling
      then fl 0
      else wohler_power reading normal_ceiling exponent
        ⊘ (fl 1 ⊕ wohler_power reading normal_ceiling exponent)

  unfoldable pub compute_shf : ConditionedData W → ShfConfig W → W
  compute_shf data' cfg =
      let vib_penalty =
        wohler_penalty data'.vibration_magnitude cfg.vibration_normal_ceiling cfg.wohler_exponent in
      let strain_penalty =
        wohler_penalty data'.strain_magnitude cfg.strain_normal_ceiling cfg.wohler_exponent in
      let combined = cfg.vibration_weight ⊗ vib_penalty ⊕ cfg.strain_weight ⊗ strain_penalty in
      fl 1 ⊖ clamp combined (fl 0) (fl 1)

  unfoldable pub range_score : W → W → W → W
  range_score value lo hi =
      if (lo ≤? value) && (value ≤? hi)
      then fl 1
      else (let mid = (lo ⊕ hi) ⊘ fl 2 in
          let half_range = (hi ⊖ lo) ⊘ fl 2 in
          let deviation = d.abs (value ⊖ mid) ⊖ half_range in
          let penalty = deviation ⊘ half_range in clamp (fl 1 ⊖ penalty) (fl 0) (fl 1))

  unfoldable pub compute_esf : ConditionedData W → EsfConfig W → W
  compute_esf data' cfg =
      let temp_score = range_score data'.temperature cfg.temp_optimal_min cfg.temp_optimal_max in
      let humid_score = range_score data'.humidity cfg.humidity_opt_min cfg.humidity_opt_max in
      let air_score =
        fl 1 ⊖ clamp (data'.air_quality_pm ⊘ cfg.pm25_safe_level ⊖ fl 1) (fl 0) (fl 1) in
      let esf =
        cfg.temp_weight ⊗ temp_score
        ⊕ cfg.humidity_weight ⊗ humid_score
        ⊕ cfg.air_qual_weight ⊗ air_score in
      clamp esf (fl 0) (fl 1)

  unfoldable pub compute_uss : ConditionedData W → UssConfig W → W
  compute_uss data' cfg =
      let uss =
        cfg.occupancy_weight ⊗ clamp data'.occupancy_ratio (fl 0) (fl 1)
        ⊕ cfg.electrical_weight ⊗ clamp data'.electrical_load (fl 0) (fl 1)
        ⊕ cfg.water_weight ⊗ clamp data'.water_consumption (fl 0) (fl 1) in
      clamp uss (fl 0) (fl 1)

  abbrev pub condition_adjustment : ConditionedData W → PdpConfig W → W
  condition_adjustment data' cfg =
      data'.maintenance_sensitivity
      ⊗ cfg.effective_age_reduction_rate
      ⊗ (data'.condition_quality ⊖ d.decimal 5000)
      ⊗ fl 2

  unfoldable pub compute_effective_age : ConditionedData W → PdpConfig W → W
  compute_effective_age data' cfg =
      let effective_age = data'.chronological_age ⊗ (fl 1 ⊖ condition_adjustment data' cfg) in
      d.max (fl 0) effective_age

  unfoldable pub compute_pdp : ConditionedData W → PdpConfig W → W
  compute_pdp data' cfg =
      let effective_age = compute_effective_age data' cfg in
      let deterioration_rate = effective_age ⊘ cfg.design_life_years in
      fl 1 ⊖ clamp deterioration_rate (fl 0) (fl 1)

  unfoldable pub compute_ci : ConditionedData W → CiConfig W → W
  compute_ci data' cfg =
      let calib_score =
        fl 1
        ⊖ clamp (data'.calibration_recency ⊘ cfg.calibration_decay_days ⊖ fl 1) (fl 0) (fl 1) in
      let ci =
        cfg.uptime_weight ⊗ clamp data'.uptime_continuity (fl 0) (fl 1)
        ⊕ cfg.consistency_weight ⊗ clamp data'.cross_sensor_consistency (fl 0) (fl 1)
        ⊕ cfg.calibration_weight ⊗ calib_score
        ⊕ cfg.tamper_weight ⊗ clamp data'.tamper_score (fl 0) (fl 1) in
      clamp ci (fl 0) (fl 1)

  unfoldable pub compute_health_factor : TechnicalIndicators W → HealthFactor W
  compute_health_factor ind =
      let hf = ind.shf ⊗ ind.esf ⊗ (fl 1 ⊖ ind.uss) ⊗ ind.pdp ⊗ ind.ci in clamp hf (fl 0) (fl 1)

  unfoldable pub compute_rtpmv : BaselineMarketValue W → HealthFactor W → W
  compute_rtpmv baseline hf = baseline.land_value ⊕ baseline.structure_value ⊗ hf

  unfoldable pub compute_all_indicators :
      ConditionedData W → AllIndicatorConfigs W → TechnicalIndicators W
  compute_all_indicators data' cfgs = record {
    shf = compute_shf data' cfgs.shf;
    esf = compute_esf data' cfgs.esf;
    uss = compute_uss data' cfgs.uss;
    pdp = compute_pdp data' cfgs.pdp;
    ci = compute_ci data' cfgs.ci;
  }
