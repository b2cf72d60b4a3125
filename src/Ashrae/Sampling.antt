-- ===== src/Ashrae/Sampling.antt =====
-- internal/ashrae/sensor.go: what one hour is sampled from. Package math beyond the operations of
-- Float, the generator of math/rand/v2 and the calendar of package time are parameters. A call that
-- draws returns the generator after it.
use twinval_go_backend.Prelude.{ℕ, ◌+◌, none, some, List, [], ◌∷◌, if◌then◌else◌, leb}
use twinval_go_backend.Prelude.Int.{ℤ, pos, negsuc, ◌-ℤ◌}
use twinval_go_backend.Prelude.Text.{Text}
use twinval_go_backend.Prelude.Maps.{lookup, insert}
use twinval_go_backend.Float.{Float64, fl, decimal, ◌⊕◌, ◌⊖◌, ◌⊗◌, ◌⊘◌, ◌<?◌}
use twinval_go_backend.Float.Order.{clamp}
use twinval_go_backend.Ashrae.Buildings.{MeterProfile}
use twinval_go_backend.Ashrae.Weather.{WeatherProfile, WeatherReading}

-- math.Exp, math.Sin and math.Round, the constant 2π, the generator, and the calendar at a number
-- of hours after BaseTime. `weekday` starts at Sunday.
pub record SensorLibrary (W G : Type 0) : Type 0 where
  pub exp : W → W
  pub sin : W → W
  pub round : W → W
  pub two_pi : W
  pub new_pcg : ℕ → ℕ → G
  pub norm_float64 : G → W × G
  pub float64 : G → W × G
  pub exp_float64 : G → W × G
  pub hour : ℤ → ℕ
  pub weekday : ℤ → ℕ
  pub year_day : ℤ → ℕ
  pub unix_nano : ℤ → ℤ
  pub sort_strings : List Text → List Text

module _ {W : Type 0} ⦃d : Float64 W⦄ where
  -- `float64(n)`, exact for the small integers here. The literal -x is 0.0 - x.
  abbrev pub fl_int : ℤ → W
  fl_int (pos n) = fl n
  fl_int (negsuc n) = fl 0 ⊖ fl (n + 1)

  abbrev pub clamp01 : W → W
  clamp01 v = clamp v (fl 0) (fl 1)

  abbrev pub minus_half : W
  minus_half = fl 0 ⊖ decimal 5000

  abbrev no_profile : MeterProfile W
  no_profile = record {
    mean = fl 0;
    std = fl 0;
    peak_hour = 0;
    weekend_factor = fl 0;
    seasonal_amp = fl 0;
  }

  -- A missing key reads as the zero value.
  abbrev pub profile_of : Text → List (Text × MeterProfile W) → MeterProfile W
  profile_of name m = elim (lookup name m) [ none ↦ no_profile | some p ↦ p ]

module _ {W G : Type 0} ⦃d : Float64 W⦄ (lib : SensorLibrary W G) where
  unfoldable pub round1 : W → W
  round1 v = lib.round (v ⊗ fl 10) ⊘ fl 10

  unfoldable round2 : W → W
  round2 v = lib.round (v ⊗ fl 100) ⊘ fl 100

  unfoldable pub round4 : W → W
  round4 v = lib.round (v ⊗ fl 10_000) ⊘ fl 10_000

  unfoldable meter_reading : MeterProfile W → ℕ → ℕ → ℕ → G → W × G
  unfolding ◌-ℤ◌
  meter_reading p hour py_dow doy g =
      let diurnal = lib.exp (minus_half ⊗ d.pow ((fl hour ⊖ fl p.peak_hour) ⊘ fl 4) (fl 2)) in
      let weekend_mult = if leb 5 py_dow then p.weekend_factor else fl 1 in
      let seasonal =
        fl 1 ⊕ p.seasonal_amp ⊗ lib.sin (lib.two_pi ⊗ fl_int (pos doy -ℤ pos 172) ⊘ fl 365) in
      let base = p.mean ⊗ diurnal ⊗ weekend_mult ⊗ seasonal in
      let (n, g') = lib.norm_float64 g in
      let noise = n ⊗ p.std ⊗ decimal 3000 in (d.max (fl 0) (base ⊕ noise), g')

  -- The loop over the sorted names.
  unfoldable pub meter_readings :
      List (Text × MeterProfile W)
      → ℕ
      → ℕ
      → ℕ
      → List Text
      → List (Text × W)
      → G
      → List (Text × W) × G
  unfolding meter_reading
  meter_readings profiles hour py_dow doy [] meters g = (meters, g)
  meter_readings profiles hour py_dow doy (name ∷ names) meters g =
      let (v, g') = meter_reading (profile_of name profiles) hour py_dow doy g in
      meter_readings profiles hour py_dow doy names (insert name v meters) g'

  -- `if e.rng.Float64() < 0.25`.
  unfoldable precipitation : WeatherProfile W → G → W × G
  precipitation wp g =
      let (u, g₁) = lib.float64 g in
      let (x, g₂) = lib.exp_float64 g₁ in
      if u <? decimal 2500 then (x ⊗ wp.precip_depth_mm.mean ⊗ fl 3, g₂) else (fl 0, g₁)

  unfoldable pub weather_reading : WeatherProfile W → ℕ → ℕ → G → WeatherReading W × G
  unfolding precipitation round1 round2 ◌-ℤ◌
  weather_reading wp doy hour g =
      let seasonal_t =
        wp.air_temp_c.seasonal_amp ⊗ lib.sin (lib.two_pi ⊗ fl_int (pos doy -ℤ pos 172) ⊘ fl 365) in
      let diurnal_t = fl 4 ⊗ lib.sin (lib.two_pi ⊗ (fl hour ⊖ fl 6) ⊘ fl 24) in
      let (n₁, g₁) = lib.norm_float64 g in
      let air_temp =
        wp.air_temp_c.mean ⊕ seasonal_t ⊕ diurnal_t ⊕ n₁ ⊗ wp.air_temp_c.std ⊗ decimal 3000 in
      let (n₂, g₂) = lib.norm_float64 g₁ in
      let humidity =
        clamp
          (wp.humidity_pct.mean
            ⊖ decimal 8000 ⊗ (air_temp ⊖ wp.air_temp_c.mean)
            ⊕ n₂ ⊗ wp.humidity_pct.std ⊗ decimal 3000)
          (fl 20) (fl 100) in
      let dew_temp = air_temp ⊖ (fl 100 ⊖ humidity) ⊘ fl 5 in
      let (n₃, g₃) = lib.norm_float64 g₂ in
      let wind = d.max (fl 0) (wp.wind_speed_ms.mean ⊕ n₃ ⊗ wp.wind_speed_ms.std ⊗ decimal 4000) in
      let (n₄, g₄) = lib.norm_float64 g₃ in
      let pressure = wp.sea_level_pressure_hpa.mean ⊕ n₄ ⊗ wp.sea_level_pressure_hpa.std in
      let (precip, g₅) = precipitation wp g₄ in
      (
        record {
          air_temperature_c = round2 air_temp;
          dew_temperature_c = round2 dew_temp;
          humidity_pct = round1 humidity;
          wind_speed_ms = round2 wind;
          sea_level_pressure_hpa = round1 pressure;
          precip_depth_mm = round2 precip;
        },
        g₅,
      )
