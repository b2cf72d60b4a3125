-- ===== src/Compute/Configs.antt =====
-- internal/compute/indicators.go: the calibration records and their defaults.
use twinval_go_backend.Float.{Float64, fl, decimal}

pub record ShfConfig (W : Type 0) : Type 0 where
  pub wohler_exponent : W
  pub vibration_normal_ceiling : W
  pub strain_normal_ceiling : W
  pub vibration_weight : W
  pub strain_weight : W

pub record EsfConfig (W : Type 0) : Type 0 where
  pub temp_optimal_min : W
  pub temp_optimal_max : W
  pub humidity_opt_min : W
  pub humidity_opt_max : W
  pub pm25_safe_level : W
  pub temp_weight : W
  pub humidity_weight : W
  pub air_qual_weight : W

pub record UssConfig (W : Type 0) : Type 0 where
  pub occupancy_weight : W
  pub electrical_weight : W
  pub water_weight : W

pub record PdpConfig (W : Type 0) : Type 0 where
  pub design_life_years : W
  pub effective_age_reduction_rate : W

pub record CiConfig (W : Type 0) : Type 0 where
  pub uptime_weight : W
  pub consistency_weight : W
  pub calibration_weight : W
  pub tamper_weight : W
  pub calibration_decay_days : W

pub record AllIndicatorConfigs (W : Type 0) : Type 0 where
  pub shf : ShfConfig W
  pub esf : EsfConfig W
  pub uss : UssConfig W
  pub pdp : PdpConfig W
  pub ci : CiConfig W

module _ {W : Type 0} ⦃d : Float64 W⦄ where
  abbrev default_shf_config : ShfConfig W
  default_shf_config = record {
    wohler_exponent = fl 4;
    vibration_normal_ceiling = decimal 500;
    strain_normal_ceiling = fl 200;
    vibration_weight = decimal 6000;
    strain_weight = decimal 4000;
  }

  abbrev default_esf_config : EsfConfig W
  default_esf_config = record {
    temp_optimal_min = fl 18;
    temp_optimal_max = fl 26;
    humidity_opt_min = fl 40;
    humidity_opt_max = fl 60;
    pm25_safe_level = fl 15;
    temp_weight = decimal 4000;
    humidity_weight = decimal 3500;
    air_qual_weight = decimal 2500;
  }

  abbrev default_uss_config : UssConfig W
  default_uss_config = record {
    occupancy_weight = decimal 5000;
    electrical_weight = decimal 3000;
    water_weight = decimal 2000;
  }

  abbrev default_pdp_config : PdpConfig W
  default_pdp_config = record {
    design_life_years = fl 50;
    effective_age_reduction_rate = decimal 3000;
  }

  abbrev default_ci_config : CiConfig W
  default_ci_config = record {
    uptime_weight = decimal 3000;
    consistency_weight = decimal 3000;
    calibration_weight = decimal 2000;
    tamper_weight = decimal 2000;
    calibration_decay_days = fl 90;
  }

  abbrev pub default_all_configs : AllIndicatorConfigs W
  default_all_configs = record {
    shf = default_shf_config;
    esf = default_esf_config;
    uss = default_uss_config;
    pdp = default_pdp_config;
    ci = default_ci_config;
  }
