-- ===== src/Compute/Types.antt =====
-- internal/compute/types.go.
use twinval_go_backend.Prelude.Int.{ℤ}
use twinval_go_backend.Prelude.Text.{Text}

pub record ConditionedData (W : Type 0) : Type 0 where
  pub vibration_magnitude : W
  pub strain_magnitude : W
  pub temperature : W
  pub humidity : W
  pub air_quality_pm : W
  pub occupancy_ratio : W
  pub electrical_load : W
  pub water_consumption : W
  pub uptime_continuity : W
  pub cross_sensor_consistency : W
  pub calibration_recency : W
  pub tamper_score : W
  pub chronological_age : W
  pub maintenance_sensitivity : W
  pub condition_quality : W

pub record TechnicalIndicators (W : Type 0) : Type 0 where
  pub shf : W
  pub esf : W
  pub uss : W
  pub pdp : W
  pub ci : W

-- `type HealthFactor float64`.
abbrev pub HealthFactor : Type 0 → Type 0
HealthFactor W = W

pub record BaselineMarketValue (W : Type 0) : Type 0 where
  pub land_value : W
  pub structure_value : W
  pub currency : Text
  pub source : Text

record Rtpmv (W : Type 0) : Type 0 where
  pub value : W
  pub currency : Text
  pub health_factor : HealthFactor W
  pub indicators : TechnicalIndicators W
  pub baseline : BaselineMarketValue W
  pub computed_at : ℤ

data PropertyType : Type 0 where
  commercial_office residential retail_mall healthcare_facility landed_bungalow : PropertyType
