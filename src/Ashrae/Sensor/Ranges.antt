-- ===== src/Ashrae/Sensor/Ranges.antt =====
-- The physical units of ToRawSensorBatch.
use twinval_go_backend.Prelude.{◌≡◌, refl, List, [], ◌∷◌, All, arith}
use twinval_go_backend.Prelude.Text.{Text}
use twinval_go_backend.Float.{Float64, IsIeee, IsUnit, fl, decimal, ◌⊕◌, ◌≼◌}
use twinval_go_backend.Float.Order.{fl-IsNum}
use twinval_go_backend.Float.Scale.{decimal-IsFinite, scaled_bounds}
use twinval_go_backend.Condition.Types.{
  SensorType, RawSensorReading, PropertyMeta, sensor_vibration, sensor_strain, sensor_temperature,
  sensor_humidity, sensor_pm25, sensor_occupancy, sensor_electrical, sensor_water,
}
use twinval_go_backend.Ashrae.Sampling.{SensorLibrary}
use twinval_go_backend.Ashrae.Sensor.{SensorReading, to_raw_sensor_batch}

-- The values from one number to another, or one value.
pub data Bound (W : Type 0) : Type 0 where
  between : W → W → Bound W
  exactly : W → Bound W

module _ {W : Type 0} ⦃d : Float64 W⦄ where
  abbrev pub Meets : Bound W → W → Type 0
  Meets (between lo hi) v = (lo ≼ v) × (v ≼ hi)
  Meets (exactly x) v = v ≡ x

  -- The stress scores lie from 0.0 to 1.0, and the humidity from 20 to 100 percent.
  pub record IsMeasured (r : SensorReading W) : Type 0 where
    pub vibration : IsUnit r.vibration
    pub strain : IsUnit r.strain
    pub occupancy : IsUnit r.occupancy
    pub electrical_load : IsUnit r.electrical_load
    pub air_quality : IsUnit r.air_quality
    pub humidity : (fl 20 ≼ r.weather.humidity_pct) × (r.weather.humidity_pct ≼ fl 100)

  -- For each reading of the batch: its type, and the values that it may have.
  pub scale : SensorReading W → List (SensorType × Bound W)
  scale r =
      (sensor_vibration, between (fl 0) (decimal 5000))
      ∷ (sensor_strain, between (fl 0) (fl 1000))
      ∷ (sensor_temperature, exactly r.weather.air_temperature_c)
      ∷ (sensor_humidity, between (fl 20) (fl 100))
      ∷ (sensor_pm25, between (fl 0) (fl 100))
      ∷ (sensor_occupancy, between (fl 0) (fl 1))
      ∷ (sensor_electrical, between (fl 0) (fl 1))
      ∷ (sensor_water, between (decimal 3000) (decimal 3000 ⊕ decimal 4000))
      ∷ []

  abbrev pub Fits : List (SensorType × Bound W) → List (RawSensorReading W) → Type 0
  Fits [] [] = Unit
  Fits [] (r ∷ rs) = ⊥
  Fits (s ∷ ss) [] = ⊥
  Fits ((t, b) ∷ ss) (r ∷ rs) = ((r.sensor_type ≡ t) × Meets b r.value) × Fits ss rs

module _ {W G : Type 0} ⦃d : Float64 W⦄ (laws : IsIeee W) (lib : SensorLibrary W G) where
  open laws use {
    IsNum-of_le, le_trans, decimal_mono, decimal_finite, mul_mono_right, mul-IsNum, zero_mul,
    one_mul, add_mono, add_zero, add_nonneg-IsNum, div_mono, zero_div, div_self, decimal_lt,
  }

  -- Of a reading whose scores and humidity are in range, the batch of ToRawSensorBatch has the eight
  -- sensors in this order, with each value in its physical range: vibration up to 0.5 m/s², strain
  -- up to 1000 microstrain, PM2.5 up to 100 µg/m³, occupancy and load up to 1, water from 0.3 to
  -- 0.3 + 0.4 and humidity from 20 to 100 percent; the temperature is the weather's. All timestamps
  -- are the window's end.
  pub to_raw_sensor_batch-Fits :
      (r : SensorReading W) (id : Text) (meta : PropertyMeta W) (days : W)
      → IsMeasured r
      → let batch = to_raw_sensor_batch lib r id meta days in
        Fits (scale r) batch.readings
        × All (λ (q : RawSensorReading W). q.timestamp_ns ≡ batch.window_end_ns) batch.readings
  unfolding to_raw_sensor_batch scale
  to_raw_sensor_batch-Fits r id meta days m =
      let water = scaled_bounds laws r.electrical_load 4000 (omega arith) m.electrical_load in
      let vib = scaled_bounds laws r.vibration 5000 (omega arith) m.vibration in
      let str = scaled_bounds laws r.strain 10_000_000 (omega arith) m.strain in
      let pm = scaled_bounds laws r.air_quality 1_000_000 (omega arith) m.air_quality in
      let third = decimal-IsFinite laws 3000 (omega arith) in
      let nonneg = decimal_mono 0 3000 (omega arith) in
      let base = add_nonneg-IsNum _ _ nonneg (fl-IsNum laws 0) in
      let total = add_nonneg-IsNum _ _ nonneg water.0 in
      let top = add_nonneg-IsNum _ _ nonneg (decimal_mono 0 4000 (omega arith)) in
      (
        (
          (refl, vib),
          (
            (refl, str),
            (
              (refl, refl),
              (
                (refl, m.humidity),
                (
                  (refl, pm),
                  (
                    (refl, m.occupancy),
                    (
                      (refl, m.electrical_load),
                      (
                        (
                          refl,
                          (
                            le_trans _ _ _ (add_zero (decimal 3000) third.0).1
                                (add_mono _ _ _ _ third.0 water.0 base total),
                            add_mono _ _ _ _ third.0 water.1 total top,
                          ),
                        ),
                        tt,
                      ),
                    ),
                  ),
                ),
              ),
            ),
          ),
        ),
        (refl, (refl, (refl, (refl, (refl, (refl, (refl, (refl, tt)))))))),
      )
