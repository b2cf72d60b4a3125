-- ===== src/Server/Demo.antt =====
-- cmd/api/main.go: the embedded simulator. The generator of math/rand/v2, the clock and what
-- internal/ashrae takes of other packages are parameters.
pub mod Modest
use twinval_go_backend.Prelude.{ℕ, ◌+◌, List, [], ◌∷◌, if◌then◌else◌}
use twinval_go_backend.Prelude.Int.{ℤ, pos, ◌-ℤ◌, ◌*ℤ◌, int64, leb_ℤ}
use twinval_go_backend.Prelude.Text.{Text, codes}
use twinval_go_backend.Clock.{milliseconds}
use twinval_go_backend.Float.{Float64, fl, decimal, ◌⊕◌, ◌⊖◌, ◌⊗◌, ◌<?◌}
use twinval_go_backend.Compute.Configs.{AllIndicatorConfigs}
use twinval_go_backend.Condition.Types.{
  SensorType, RawSensorReading, RawSensorBatch, PropertyMeta, ConditioningConfig, sensor_vibration,
  sensor_strain, sensor_temperature, sensor_humidity, sensor_pm25, sensor_occupancy,
  sensor_electrical, sensor_water,
}
use twinval_go_backend.Ingest.Types.{seconds}
use twinval_go_backend.Config.{AppConfig}
use twinval_go_backend.Ashrae.Buildings.{Building, buildings}
use twinval_go_backend.Ashrae.Weather.{site1_weather}
use twinval_go_backend.Ashrae.Sampling.{SensorLibrary, fl_int}
use twinval_go_backend.Ashrae.Sensor.{SensorEngine, new_engine, to_raw_sensor_batch}
use twinval_go_backend.Ashrae.Sensor as Sensor
use twinval_go_backend.Server.Pipeline.{Runtime, Times, Server, process_batch}

-- `time.Duration(cfg.SimIntervalMs) * time.Millisecond`, or a second.
unfoldable pub sim_interval : {W : Type 0} → AppConfig W → ℤ
unfolding milliseconds
sim_interval cfg =
    let interval = milliseconds cfg.sim_interval_ms in
    if leb_ℤ interval (pos 0) then seconds 1 else interval

module _ {W G : Type 0} ⦃d : Float64 W⦄ (float64 : G → W × G) where
  -- `lo + rng.Float64()*(hi-lo)`.
  unfoldable pub uniform : W → W → G → W × G
  uniform lo hi g = let (u, g') = float64 g in (lo ⊕ u ⊗ (hi ⊖ lo), g')

  -- Its PropertyMeta is the zero value.
  unfoldable pub simple_random_batch : Text → ℤ → G → RawSensorBatch W × G
  unfolding uniform int64 ◌-ℤ◌
  simple_random_batch property_id now g =
      let (u, g₁) = float64 g in
      let (vib, g₂) = uniform (decimal 100) (decimal 800) g₁ in
      let (str, g₃) = uniform (fl 50) (fl 300) g₂ in
      let stress = u <? decimal 500 in
      let vibration = if stress then decimal 2500 else vib in
      let strain = if stress then fl 700 else str in
      let (tmp, g₄) = uniform (fl 20) (fl 26) g₃ in
      let (hum, g₅) = uniform (fl 40) (fl 60) g₄ in
      let (pm, g₆) = uniform (fl 5) (fl 20) g₅ in
      let (occ, g₇) = uniform (decimal 3000) (decimal 9000) g₆ in
      let (el, g₈) = uniform (decimal 4000) (decimal 8500) g₇ in
      let (wat, g₉) = uniform (decimal 2000) (decimal 6000) g₈ in
      let mk : Text → SensorType → Text → W → RawSensorReading W = λ id st zone value. record {
        sensor_id = id;
        sensor_type = st;
        zone = zone;
        timestamp_ns = now;
        value = value;
        calibration_days_ago = fl 30;
      } in
      (
        record {
          property_id = property_id;
          readings =
              mk (codes "vib1") sensor_vibration (codes "core") vibration
              ∷ mk (codes "str1") sensor_strain (codes "beam-A") strain
              ∷ mk (codes "tmp1") sensor_temperature (codes "lobby") tmp
              ∷ mk (codes "hum1") sensor_humidity (codes "lobby") hum
              ∷ mk (codes "pm1") sensor_pm25 (codes "lobby") pm
              ∷ mk (codes "occ1") sensor_occupancy (codes "core") occ
              ∷ mk (codes "el1") sensor_electrical (codes "core") el
              ∷ mk (codes "wat1") sensor_water (codes "core") wat
              ∷ [];
          window_start_ns = int64 (now -ℤ seconds 1);
          window_end_ns = now;
          expected_readings_per_sensor = pos 1;
          property_meta = record {
            chronological_age = fl 0;
            maintenance_sensitivity = fl 0;
            condition_quality = fl 0;
          };
        },
        g₉,
      )

-- An engine with its building's key and meta data.
pub record Simulated (W G : Type 0) : Type 0 where
  pub engine : SensorEngine W G
  pub key : Text
  pub meta : PropertyMeta W

module _ {W G : Type 0} ⦃d : Float64 W⦄ (lib : SensorLibrary W G) where
  -- The loop over the buildings, from index `i` on, in a year.
  unfoldable pub simulated : ℕ → ℕ → List (Building W) → List (Simulated W G)
  unfolding new_engine ◌-ℤ◌
  simulated year i [] = []
  simulated year i (b ∷ bs) =
      record {
        engine = new_engine lib b site1_weather (pos (9 + i));
        key = b.key;
        meta = record {
          chronological_age = fl_int (pos year -ℤ pos b.year_built);
          maintenance_sensitivity = decimal 6000;
          condition_quality = decimal 8500;
        };
      }
      ∷ simulated year (i + 1) bs

  unfoldable pub ashrae_engines : ℕ → List (Simulated W G)
  unfolding simulated
  ashrae_engines year = simulated year 0 buildings

  -- One tick: each engine in turn, with the readings of the clock for its batch.
  unfoldable pub ashrae_tick :
      Runtime W
      → AppConfig W
      → ConditioningConfig W
      → AllIndicatorConfigs W
      → (ℕ → Times)
      → ℕ
      → Server W
      → List (Simulated W G)
      → Server W × List (Simulated W G)
  unfolding Sensor.next to_raw_sensor_batch process_batch
  ashrae_tick rt cfg cond_cfg ind_cfgs clock i s [] = (s, [])
  ashrae_tick rt cfg cond_cfg ind_cfgs clock i s (e ∷ es) =
      let (reading, engine) = Sensor.next lib e.engine in
      let batch = to_raw_sensor_batch lib reading e.key e.meta (fl 30) in
      let s₁ = process_batch rt cfg s batch cond_cfg ind_cfgs (clock i) in
      let (s₂, es') = ashrae_tick rt cfg cond_cfg ind_cfgs clock (i + 1) s₁ es in
      (s₂, record e { engine = engine } ∷ es')
