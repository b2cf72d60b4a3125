-- ===== src/Compute/Tests.antt =====
-- The theorems on internal/compute at concrete readings, over whole ten-thousandths.
use twinval_go_backend.Prelude.{refl}
use twinval_go_backend.Prelude.Text.{codes}
use twinval_go_backend.Float.{fl, decimal, ◌≼◌, ◌⊕◌}
use twinval_go_backend.Float.Fixed.{Fixed, fixed_float}
use twinval_go_backend.Float.Fixed.Laws.{Fixed-IsIeee}
use twinval_go_backend.Compute.Types.{ConditionedData, TechnicalIndicators, BaselineMarketValue}
use twinval_go_backend.Compute.Configs.{AllIndicatorConfigs, default_all_configs}
use twinval_go_backend.Compute.Indicators.{
  compute_all_indicators, compute_health_factor, compute_rtpmv,
}
use twinval_go_backend.Compute.Bounds.{compute_all_indicators-AreUnit}
use twinval_go_backend.Compute.Valid.{AreUnit, IsValid, IsClean}
use twinval_go_backend.Compute.Value.{IsAssessed, compute_rtpmv_bounds, compute_health_factor_mono}

abbrev pub default_configs : AllIndicatorConfigs Fixed
default_configs = default_all_configs

-- Vibration and strain above their ceilings, a warm and humid environment, an old building.
abbrev pub degraded : ConditionedData Fixed
degraded = record {
  vibration_magnitude = decimal 2000;
  strain_magnitude = fl 600;
  temperature = fl 35;
  humidity = fl 80;
  air_quality_pm = fl 45;
  occupancy_ratio = decimal 9500;
  electrical_load = decimal 9000;
  water_consumption = decimal 8500;
  uptime_continuity = decimal 7000;
  cross_sensor_consistency = decimal 6500;
  calibration_recency = fl 200;
  tamper_score = decimal 8000;
  chronological_age = fl 30;
  maintenance_sensitivity = decimal 8000;
  condition_quality = decimal 3000;
}

abbrev pub quiet : ConditionedData Fixed
quiet = record degraded { vibration_magnitude = decimal 100; strain_magnitude = fl 50 }

-- A comfortable and well calibrated building.
abbrev pub steady : ConditionedData Fixed
steady = record quiet {
  temperature = fl 22;
  humidity = fl 50;
  air_quality_pm = fl 10;
  calibration_recency = fl 5;
  chronological_age = fl 3;
}

abbrev pub fair : TechnicalIndicators Fixed
fair = record {
  shf = decimal 9000;
  esf = decimal 8000;
  uss = decimal 2000;
  pdp = decimal 9000;
  ci = decimal 9500;
}

abbrev better : TechnicalIndicators Fixed
better = record fair { shf = decimal 9500; uss = decimal 1000 }

abbrev office : BaselineMarketValue Fixed
office = record {
  land_value = fl 500;
  structure_value = fl 1000;
  currency = codes "MYR";
  source = codes "GOVT";
}

pub default_configs-IsValid : IsValid default_configs
default_configs-IsValid = record {
  shf = record {
    exponent = refl;
    vibration_ceiling = ((refl, refl), refl);
    strain_ceiling = ((refl, refl), refl);
    vibration_weight = (refl, (refl, refl));
    strain_weight = (refl, (refl, refl));
  };
  esf = record {
    temp_range = ((refl, refl), ((refl, refl), refl));
    humidity_range = ((refl, refl), ((refl, refl), refl));
    safe_level = ((refl, refl), refl);
    temp_weight = (refl, (refl, refl));
    humidity_weight = (refl, (refl, refl));
    air_qual_weight = (refl, (refl, refl));
  };
  uss = record {
    occupancy_weight = (refl, (refl, refl));
    electrical_weight = (refl, (refl, refl));
    water_weight = (refl, (refl, refl));
  };
  design_life = ((refl, refl), refl);
  ci = record {
    uptime_weight = (refl, (refl, refl));
    consistency_weight = (refl, (refl, refl));
    calibration_weight = (refl, (refl, refl));
    tamper_weight = (refl, (refl, refl));
    decay_days = ((refl, refl), refl);
  };
}

pub degraded-IsClean : IsClean default_configs degraded
degraded-IsClean = record {
  vibration = (refl, refl);
  strain = (refl, refl);
  vibration_power = (refl, refl);
  strain_power = (refl, refl);
  temperature = (refl, refl);
  humidity = (refl, refl);
  air_quality = (refl, refl);
  occupancy = refl;
  electrical = refl;
  water = refl;
  uptime = refl;
  consistency = refl;
  calibration = (refl, refl);
  tamper = refl;
  age = (refl, refl);
  age_factor = (refl, refl);
}

maintained-IsClean : IsClean default_configs (record degraded { condition_quality = decimal 9000 })
maintained-IsClean = record {
  vibration = (refl, refl);
  strain = (refl, refl);
  vibration_power = (refl, refl);
  strain_power = (refl, refl);
  temperature = (refl, refl);
  humidity = (refl, refl);
  air_quality = (refl, refl);
  occupancy = refl;
  electrical = refl;
  water = refl;
  uptime = refl;
  consistency = refl;
  calibration = (refl, refl);
  tamper = refl;
  age = (refl, refl);
  age_factor = (refl, refl);
}

pub fair-AreUnit : AreUnit fair
fair-AreUnit = ((refl, refl), (refl, refl), (refl, refl), (refl, refl), (refl, refl))

better-AreUnit : AreUnit better
better-AreUnit = ((refl, refl), (refl, refl), (refl, refl), (refl, refl), (refl, refl))

office-IsAssessed : IsAssessed office
office-IsAssessed = record {
  land = (refl, refl);
  structure = (refl, refl);
  structure_nonneg = refl;
}

compute_all_indicators_example : AreUnit (compute_all_indicators degraded default_configs)
compute_all_indicators_example =
    compute_all_indicators-AreUnit Fixed-IsIeee degraded default_configs default_configs-IsValid
      degraded-IsClean

compute_health_factor_mono_example : compute_health_factor fair ≼ compute_health_factor better
compute_health_factor_mono_example =
    compute_health_factor_mono Fixed-IsIeee fair better fair-AreUnit better-AreUnit
      (record { shf = refl; esf = refl; uss = refl; pdp = refl; ci = refl })

compute_rtpmv_example :
    (office.land_value ≼ compute_rtpmv office (decimal 8000))
    × (compute_rtpmv office (decimal 8000) ≼ office.land_value ⊕ office.structure_value)
compute_rtpmv_example =
    compute_rtpmv_bounds Fixed-IsIeee office (decimal 8000) office-IsAssessed (refl, refl)
