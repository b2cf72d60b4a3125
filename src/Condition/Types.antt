-- ===== src/Condition/Types.antt =====
-- internal/condition/types.go. Maps are association lists.
use twinval_go_backend.Prelude.{List, [], ◌∷◌}
use twinval_go_backend.Prelude.Int.{ℤ}
use twinval_go_backend.Prelude.Text.{Text, codes}
use twinval_go_backend.Float.{Float64, fl, decimal, ◌⊖◌}

-- `type SensorType string`.
abbrev pub SensorType : Type 0
SensorType = Text

abbrev pub sensor_vibration : SensorType
sensor_vibration = codes "vibration"

abbrev pub sensor_strain : SensorType
sensor_strain = codes "strain"

abbrev pub sensor_temperature : SensorType
sensor_temperature = codes "temperature"

abbrev pub sensor_humidity : SensorType
sensor_humidity = codes "humidity"

abbrev pub sensor_pm25 : SensorType
sensor_pm25 = codes "pm25"

abbrev pub sensor_occupancy : SensorType
sensor_occupancy = codes "occupancy"

abbrev pub sensor_electrical : SensorType
sensor_electrical = codes "electrical"

abbrev pub sensor_water : SensorType
sensor_water = codes "water"

pub record RawSensorReading (W : Type 0) : Type 0 where
  pub sensor_id : Text
  pub sensor_type : SensorType
  pub zone : Text
  pub timestamp_ns : ℤ
  pub value : W
  pub calibration_days_ago : W

pub record PropertyMeta (W : Type 0) : Type 0 where
  pub chronological_age : W
  pub maintenance_sensitivity : W
  pub condition_quality : W

pub record RawSensorBatch (W : Type 0) : Type 0 where
  pub property_id : Text
  pub readings : List (RawSensorReading W)
  pub window_start_ns : ℤ
  pub window_end_ns : ℤ
  pub expected_readings_per_sensor : ℤ
  pub property_meta : PropertyMeta W

pub record Range (W : Type 0) : Type 0 where
  pub low : W
  pub high : W

pub record ConditioningConfig (W : Type 0) : Type 0 where
  pub ema_alpha : W
  pub bounds : List (SensorType × Range W)
  pub tamper_step_limits : List (SensorType × W)
  pub consistency_tolerances : List (SensorType × W)

pub record IntegrityReport (W : Type 0) : Type 0 where
  pub uptime_continuity : W
  pub cross_sensor_consistency : W
  pub calibration_recency : W
  pub tamper_score : W

module _ {W : Type 0} ⦃d : Float64 W⦄ where
  -- The literal −10.0 is written as a difference, which is exact.
  abbrev pub default_conditioning_config : ConditioningConfig W
  default_conditioning_config = record {
    ema_alpha = decimal 2000;
    bounds =
        (sensor_vibration, record { low = fl 0; high = fl 1 })
        ∷ (sensor_strain, record { low = fl 0; high = fl 1000 })
        ∷ (sensor_temperature, record { low = fl 0 ⊖ fl 10; high = fl 50 })
        ∷ (sensor_humidity, record { low = fl 0; high = fl 100 })
        ∷ (sensor_pm25, record { low = fl 0; high = fl 500 })
        ∷ (sensor_occupancy, record { low = fl 0; high = fl 1 })
        ∷ (sensor_electrical, record { low = fl 0; high = fl 1 })
        ∷ (sensor_water, record { low = fl 0; high = fl 1 })
        ∷ [];
    tamper_step_limits =
        (sensor_vibration, decimal 5000)
        ∷ (sensor_strain, fl 300)
        ∷ (sensor_temperature, fl 10)
        ∷ (sensor_humidity, fl 20)
        ∷ (sensor_pm25, fl 100)
        ∷ (sensor_occupancy, decimal 5000)
        ∷ (sensor_electrical, decimal 5000)
        ∷ (sensor_water, decimal 5000)
        ∷ [];
    consistency_tolerances =
        (sensor_vibration, decimal 200)
        ∷ (sensor_strain, fl 50)
        ∷ (sensor_temperature, fl 1)
        ∷ (sensor_humidity, fl 5)
        ∷ (sensor_pm25, fl 5)
        ∷ (sensor_occupancy, decimal 1000)
        ∷ (sensor_electrical, decimal 1000)
        ∷ (sensor_water, decimal 1000)
        ∷ [];
  }
