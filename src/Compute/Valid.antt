-- ===== src/Compute/Valid.antt =====
-- internal/compute/indicators.go: a valid calibration, and clean readings.
use twinval_go_backend.Float.{Float64, IsNum, IsFinite, IsUnit, fl, ◌⊕◌, ◌⊖◌, ◌⊘◌, ◌≼◌, ◌≺◌}
use twinval_go_backend.Compute.Types.{ConditionedData, TechnicalIndicators}
use twinval_go_backend.Compute.Configs.{
  ShfConfig, EsfConfig, UssConfig, CiConfig, AllIndicatorConfigs,
}
use twinval_go_backend.Compute.Indicators.{wohler_power, condition_adjustment}

module _ {W : Type 0} ⦃d : Float64 W⦄ where
  abbrev pub IsWeight : W → Type 0
  IsWeight w = (fl 0 ≼ w) × IsFinite w

  abbrev pub AreUnit : TechnicalIndicators W → Type 0
  AreUnit ind = IsUnit ind.shf × IsUnit ind.esf × IsUnit ind.uss × IsUnit ind.pdp × IsUnit ind.ci

  abbrev pub IsPositive : W → Type 0
  IsPositive x = IsFinite x × (fl 0 ≺ x)

  pub record ShfIsValid (cfg : ShfConfig W) : Type 0 where
    pub exponent : fl 0 ≼ cfg.wohler_exponent
    pub vibration_ceiling : IsPositive cfg.vibration_normal_ceiling
    pub strain_ceiling : IsPositive cfg.strain_normal_ceiling
    pub vibration_weight : IsWeight cfg.vibration_weight
    pub strain_weight : IsWeight cfg.strain_weight

  -- A range has a finite middle, and a width that is a positive number.
  abbrev pub IsRange : W → W → Type 0
  IsRange lo hi = IsFinite ((lo ⊕ hi) ⊘ fl 2) × IsPositive ((hi ⊖ lo) ⊘ fl 2)

  pub record EsfIsValid (cfg : EsfConfig W) : Type 0 where
    pub temp_range : IsRange cfg.temp_optimal_min cfg.temp_optimal_max
    pub humidity_range : IsRange cfg.humidity_opt_min cfg.humidity_opt_max
    pub safe_level : IsPositive cfg.pm25_safe_level
    pub temp_weight : IsWeight cfg.temp_weight
    pub humidity_weight : IsWeight cfg.humidity_weight
    pub air_qual_weight : IsWeight cfg.air_qual_weight

  pub record UssIsValid (cfg : UssConfig W) : Type 0 where
    pub occupancy_weight : IsWeight cfg.occupancy_weight
    pub electrical_weight : IsWeight cfg.electrical_weight
    pub water_weight : IsWeight cfg.water_weight

  pub record CiIsValid (cfg : CiConfig W) : Type 0 where
    pub uptime_weight : IsWeight cfg.uptime_weight
    pub consistency_weight : IsWeight cfg.consistency_weight
    pub calibration_weight : IsWeight cfg.calibration_weight
    pub tamper_weight : IsWeight cfg.tamper_weight
    pub decay_days : IsPositive cfg.calibration_decay_days

  pub record IsValid (cfgs : AllIndicatorConfigs W) : Type 0 where
    pub shf : ShfIsValid cfgs.shf
    pub esf : EsfIsValid cfgs.esf
    pub uss : UssIsValid cfgs.uss
    pub design_life : IsPositive cfgs.pdp.design_life_years
    pub ci : CiIsValid cfgs.ci

  -- The readings are finite, and neither the Wöhler powers nor the age factor overflow.
  pub record IsClean (cfgs : AllIndicatorConfigs W) (x : ConditionedData W) : Type 0 where
    pub vibration : IsFinite x.vibration_magnitude
    pub strain : IsFinite x.strain_magnitude
    pub vibration_power : IsFinite (
        fl 1
        ⊕ wohler_power x.vibration_magnitude cfgs.shf.vibration_normal_ceiling
            cfgs.shf.wohler_exponent)
    pub strain_power : IsFinite (
        fl 1
        ⊕ wohler_power x.strain_magnitude cfgs.shf.strain_normal_ceiling cfgs.shf.wohler_exponent)
    pub temperature : IsFinite x.temperature
    pub humidity : IsFinite x.humidity
    pub air_quality : IsFinite x.air_quality_pm
    pub occupancy : IsNum x.occupancy_ratio
    pub electrical : IsNum x.electrical_load
    pub water : IsNum x.water_consumption
    pub uptime : IsNum x.uptime_continuity
    pub consistency : IsNum x.cross_sensor_consistency
    pub calibration : IsFinite x.calibration_recency
    pub tamper : IsNum x.tamper_score
    pub age : IsFinite x.chronological_age
    pub age_factor : IsFinite (fl 1 ⊖ condition_adjustment x cfgs.pdp)
