-- ===== src/Ashrae/Tests.antt =====
-- The theorem on internal/ashrae at a concrete reading, over whole ten-thousandths.
use twinval_go_backend.Prelude.{ℕ, ◌≡◌, refl, All}
use twinval_go_backend.Prelude.Int.{pos}
use twinval_go_backend.Prelude.Text.{codes}
use twinval_go_backend.Float.{fl, decimal}
use twinval_go_backend.Float.Fixed.{Fixed, fixed_float}
use twinval_go_backend.Float.Fixed.Laws.{Fixed-IsIeee}
use twinval_go_backend.Condition.Types.{RawSensorReading, PropertyMeta}
use twinval_go_backend.Ashrae.Buildings.{klcc_tower}
use twinval_go_backend.Ashrae.Weather.{site1_weather}
use twinval_go_backend.Ashrae.Sampling.{SensorLibrary}
use twinval_go_backend.Ashrae.Sensor.{SensorEngine, new_engine, next, to_raw_sensor_batch}
use twinval_go_backend.Ashrae.Sensor.Ranges.{scale, Fits}
use twinval_go_backend.Ashrae.Sensor.Scores.{Rounds, IsNumeric, next-Fits}

abbrev pub lib : SensorLibrary Fixed ℕ
lib = record {
  exp = λ x. x;
  sin = λ x. x;
  round = λ x. x;
  two_pi = decimal 62_832;
  new_pcg = λ s t. s;
  norm_float64 = λ g. (fl 0, g);
  float64 = λ g. (fl 0, g);
  exp_float64 = λ g. (fl 0, g);
  hour = λ t. 9;
  weekday = λ t. 1;
  year_day = λ t. 4;
  unix_nano = λ t. t;
  sort_strings = λ ks. ks;
}

abbrev engine : SensorEngine Fixed ℕ
engine = new_engine lib klcc_tower site1_weather (pos 9)

abbrev meta : PropertyMeta Fixed
meta = record {
  chronological_age = fl 28;
  maintenance_sensitivity = decimal 6000;
  condition_quality = decimal 8500;
}

lib-Rounds : Rounds lib
lib-Rounds = record { round_mono = λ x y h. h; round_fl = λ n h. refl; IsNum-of_round = λ x h. h }

engine-IsNumeric : IsNumeric (next lib engine).0
unfolding next new_engine
engine-IsNumeric = record {
  vibration = refl;
  strain = refl;
  occupancy = refl;
  electrical_load = refl;
  air_quality = refl;
  humidity = refl;
}

hourly_example :
    let r = (next lib engine).0 in
    let batch = to_raw_sensor_batch lib r (codes "P1") meta (fl 30) in
    Fits (scale r) batch.readings
    × All (λ (q : RawSensorReading Fixed). q.timestamp_ns ≡ batch.window_end_ns) batch.readings
hourly_example =
    next-Fits Fixed-IsIeee lib lib-Rounds engine (codes "P1") meta (fl 30) engine-IsNumeric
