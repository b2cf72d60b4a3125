-- ===== src/Ashrae/Weather.antt =====
-- internal/ashrae/weather.go.
use twinval_go_backend.Float.{Float64, fl, decimal}

pub record WeatherStat (W : Type 0) : Type 0 where
  pub mean : W
  pub std : W
  pub seasonal_amp : W

pub record WeatherProfile (W : Type 0) : Type 0 where
  pub air_temp_c : WeatherStat W
  pub dew_temp_c : WeatherStat W
  pub humidity_pct : WeatherStat W
  pub wind_speed_ms : WeatherStat W
  pub sea_level_pressure_hpa : WeatherStat W
  pub precip_depth_mm : WeatherStat W

pub record WeatherReading (W : Type 0) : Type 0 where
  pub air_temperature_c : W
  pub dew_temperature_c : W
  pub humidity_pct : W
  pub wind_speed_ms : W
  pub sea_level_pressure_hpa : W
  pub precip_depth_mm : W

module _ {W : Type 0} ⦃d : Float64 W⦄ where
  abbrev pub site1_weather : WeatherProfile W
  site1_weather = record {
    air_temp_c = record {
      mean = decimal 272_000;
      std = decimal 18_000;
      seasonal_amp = decimal 12_000;
    };
    dew_temp_c = record { mean = decimal 235_000; std = decimal 14_000; seasonal_amp = fl 0 };
    humidity_pct = record { mean = fl 82; std = decimal 75_000; seasonal_amp = fl 0 };
    wind_speed_ms = record { mean = decimal 21_000; std = decimal 12_000; seasonal_amp = fl 0 };
    sea_level_pressure_hpa = record {
      mean = decimal 10_098_000;
      std = decimal 32_000;
      seasonal_amp = fl 0;
    };
    precip_depth_mm = record { mean = decimal 75_000; std = decimal 142_000; seasonal_amp = fl 0 };
  }
