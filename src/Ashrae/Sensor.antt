-- ===== src/Ashrae/Sensor.antt =====
-- internal/ashrae/sensor.go: the engine, and the batch that it makes of an hour. What it draws is in
-- Ashrae.Sampling.
pub mod Ranges
pub mod Scores
use twinval_go_backend.Prelude.{
  ℕ, ◌+◌, ◌*◌, ◌%◌, ◌^◌, Bool, Option, none, some, List, [], ◌∷◌, if◌then◌else◌, leb,
}
use twinval_go_backend.Prelude.Int.{ℤ, pos, negsuc, ◌+ℤ◌, ◌-ℤ◌, int64}
use twinval_go_backend.Prelude.Text.{Text, codes}
use twinval_go_backend.Prelude.Maps.{lookup, insert, keys}
use twinval_go_backend.Float.{Float64, fl, decimal, ◌⊕◌, ◌⊖◌, ◌⊗◌, ◌⊘◌, ◌<?◌}
use twinval_go_backend.Float.Order.{clamp}
use twinval_go_backend.Condition.Types.{
  SensorType, RawSensorReading, RawSensorBatch, PropertyMeta, sensor_vibration, sensor_strain,
  sensor_temperature, sensor_humidity, sensor_pm25, sensor_occupancy, sensor_electrical,
  sensor_water,
}
use twinval_go_backend.Ingest.Types.{seconds}
use twinval_go_backend.Ashrae.Buildings.{MeterProfile, Building}
use twinval_go_backend.Ashrae.Weather.{WeatherStat, WeatherProfile, WeatherReading}
use twinval_go_backend.Ashrae.Sampling.{
  SensorLibrary, clamp01, minus_half, profile_of, round4, meter_readings, weather_reading,
}

pub record SensorEngine (W G : Type 0) : Type 0 where
  pub building : Building W
  pub weather : WeatherProfile W
  pub rng : G
  pub hour_index : ℤ

-- `time` is the number of hours after BaseTime.
pub record SensorReading (W : Type 0) : Type 0 where
  pub time : ℤ
  pub hour : ℕ
  pub day_of_week : ℕ
  pub day_of_year : ℕ
  pub vibration : W
  pub strain : W
  pub moisture : W
  pub temperature : W
  pub occupancy : W
  pub electrical_load : W
  pub air_quality : W
  pub meter_readings : List (Text × W)
  pub weather : WeatherReading W

unfoldable python_weekday : ℕ → ℕ
python_weekday weekday = (weekday + 6) % 7

module _ {W : Type 0} ⦃d : Float64 W⦄ where
  abbrev meter_of : Text → List (Text × W) → W
  meter_of name m = elim (lookup name m) [ none ↦ fl 0 | some v ↦ v ]

module _ {W G : Type 0} ⦃d : Float64 W⦄ (lib : SensorLibrary W G) where
  unfoldable pub new_engine : Building W → WeatherProfile W → ℤ → SensorEngine W G
  new_engine b w hour_offset = record {
    building = b;
    weather = w;
    rng = lib.new_pcg b.id ((b.id * 2 + 1) % 2 ^ 64);
    hour_index = hour_offset;
  }

  unfoldable occupancy_of : MeterProfile W → ℕ → ℕ → W → W
  occupancy_of elec_profile hour py_dow n =
      let diurnal =
        lib.exp
          (minus_half ⊗ d.pow ((fl hour ⊖ fl elec_profile.peak_hour) ⊘ decimal 35_000) (fl 2)) in
      let weekend = if leb 5 py_dow then decimal 3000 else fl 1 in
      clamp01 (diurnal ⊗ weekend ⊕ n ⊗ decimal 500)

  unfoldable moisture_of : WeatherReading W → W
  moisture_of w =
      let base = w.humidity_pct ⊘ fl 100 in
      let dew_proximity =
        d.max (fl 0) (fl 1 ⊖ (w.air_temperature_c ⊖ w.dew_temperature_c) ⊘ fl 10) in
      let precip_factor = d.min (fl 1) (w.precip_depth_mm ⊘ fl 20) in
      clamp01 (decimal 5000 ⊗ base ⊕ decimal 3000 ⊗ dew_proximity ⊕ decimal 2000 ⊗ precip_factor)

  unfoldable vibration_of : W → WeatherReading W → W → W
  vibration_of electrical_load w n =
      let hvac_vibration = electrical_load ⊗ decimal 6000 in
      let structural_base = decimal 200 ⊕ decimal 100 ⊗ (w.wind_speed_ms ⊘ fl 10) in
      clamp01 (hvac_vibration ⊗ decimal 1500 ⊕ structural_base ⊕ n ⊗ decimal 150)

  unfoldable strain_of : W → W → W → W
  strain_of temp_stress occupancy n =
      clamp01 (temp_stress ⊗ decimal 800 ⊕ occupancy ⊗ decimal 500 ⊕ n ⊗ decimal 100)

  unfoldable air_quality_stress_of : W → W → W → W
  air_quality_stress_of electrical_load occupancy n =
      let hvac_efficiency = fl 1 ⊖ electrical_load ⊗ decimal 3000 in
      let aq_base = fl 1 ⊖ occupancy ⊗ decimal 4000 in
      fl 1 ⊖ clamp01 (aq_base ⊗ hvac_efficiency ⊕ n ⊗ decimal 300)

  unfoldable pub next : SensorEngine W G → SensorReading W × SensorEngine W G
  unfolding python_weekday meter_readings weather_reading occupancy_of moisture_of vibration_of
      strain_of air_quality_stress_of round4 ◌+ℤ◌ int64
  next e =
      let t = e.hour_index in
      let hour = lib.hour t in
      let py_dow = python_weekday (lib.weekday t) in
      let doy = lib.year_day t in
      let profiles = e.building.meter_profiles in
      let (meters, g) =
        meter_readings lib profiles hour py_dow doy (lib.sort_strings (keys profiles)) [] e.rng in
      let (weather, g₀) = weather_reading lib e.weather doy hour g in
      let elec_profile = profile_of (codes "electricity_kwh") profiles in
      let elec_capacity = elec_profile.mean ⊗ decimal 25_000 in
      let electrical_load = clamp01 (meter_of (codes "electricity_kwh") meters ⊘ elec_capacity) in
      let (n₁, g₁) = lib.norm_float64 g₀ in
      let occupancy = occupancy_of elec_profile hour py_dow n₁ in
      let temp_stress = clamp01 (d.abs (weather.air_temperature_c ⊖ fl 22) ⊘ fl 20) in
      let moisture = moisture_of weather in
      let (n₂, g₂) = lib.norm_float64 g₁ in
      let vibration = vibration_of electrical_load weather n₂ in
      let (n₃, g₃) = lib.norm_float64 g₂ in
      let strain = strain_of temp_stress occupancy n₃ in
      let (n₄, g₄) = lib.norm_float64 g₃ in
      let air_quality_stress = air_quality_stress_of electrical_load occupancy n₄ in
      (
        record {
          time = t;
          hour = hour;
          day_of_week = py_dow;
          day_of_year = doy;
          vibration = round4 lib vibration;
          strain = round4 lib strain;
          moisture = round4 lib moisture;
          temperature = round4 lib temp_stress;
          occupancy = round4 lib occupancy;
          electrical_load = round4 lib electrical_load;
          air_quality = round4 lib air_quality_stress;
          meter_readings = meters;
          weather = weather;
        },
        record e { rng = g₄; hour_index = int64 (t +ℤ pos 1) },
      )

module _ {W G : Type 0} ⦃d : Float64 W⦄ (lib : SensorLibrary W G) where
  unfoldable pub to_raw_sensor_batch :
      SensorReading W → Text → PropertyMeta W → W → RawSensorBatch W
  unfolding ◌-ℤ◌ int64
  to_raw_sensor_batch r property_id meta calibration_days_ago =
      let ts_ns = lib.unix_nano r.time in
      let mk : Text → SensorType → W → RawSensorReading W = λ id st value. record {
        sensor_id = id;
        sensor_type = st;
        zone = codes "ashrae";
        timestamp_ns = ts_ns;
        value = value;
        calibration_days_ago = calibration_days_ago;
      } in
      record {
        property_id = property_id;
        readings =
            mk (codes "vib1") sensor_vibration (r.vibration ⊗ decimal 5000)
            ∷ mk (codes "str1") sensor_strain (r.strain ⊗ fl 1000)
            ∷ mk (codes "tmp1") sensor_temperature r.weather.air_temperature_c
            ∷ mk (codes "hum1") sensor_humidity r.weather.humidity_pct
            ∷ mk (codes "pm1") sensor_pm25 (r.air_quality ⊗ fl 100)
            ∷ mk (codes "occ1") sensor_occupancy r.occupancy
            ∷ mk (codes "el1") sensor_electrical r.electrical_load
            ∷ mk (codes "wat1") sensor_water (decimal 3000 ⊕ r.electrical_load ⊗ decimal 4000)
            ∷ [];
        window_start_ns = int64 (ts_ns -ℤ seconds 3600);
        window_end_ns = ts_ns;
        expected_readings_per_sensor = pos 1;
        property_meta = meta;
      }
