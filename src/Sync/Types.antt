-- ===== src/Sync/Types.antt =====
-- internal/sync/types.go. A time.Time is its nanoseconds after the zero time.
use twinval_go_backend.Prelude.{ℕ}
use twinval_go_backend.Prelude.Int.{ℤ, pos}
use twinval_go_backend.Float.{Float64, fl, decimal}
use twinval_go_backend.Compute.Types.{ConditionedData, TechnicalIndicators, HealthFactor}
use twinval_go_backend.Compute.Configs.{AllIndicatorConfigs, default_all_configs}

-- `update_count` is a uint64.
pub record DigitalTwinState (W : Type 0) : Type 0 where
  pub structural_stiffness : W
  pub environmental_exposure_history : W
  pub cumulative_usage_load : W
  pub overall_health : HealthFactor W
  pub last_indicators : TechnicalIndicators W
  pub last_updated_at : ℤ
  pub update_count : ℕ

pub record StateUpdate (W : Type 0) : Type 0 where
  pub state : DigitalTwinState W
  pub source_data : ConditionedData W
  pub indicators : TechnicalIndicators W
  pub updated_at : ℤ

pub record StateMachineConfig (W : Type 0) : Type 0 where
  pub indicators : AllIndicatorConfigs W
  pub stiffness_decay_per_unit_vibration : W
  pub stiffness_decay_per_unit_strain : W
  pub stiffness_recovery_rate : W
  pub environment_smoothing_factor : W
  pub usage_accumulation_rate : W
  pub update_buffer_size : ℤ
  pub subscriber_buffer_size : ℤ
  pub initial_structural_stiffness : W
  pub initial_environmental_exposure : W
  pub initial_cumulative_usage_load : W

module _ {W : Type 0} ⦃d : Float64 W⦄ where
  abbrev pub default_state_machine_config : StateMachineConfig W
  default_state_machine_config = record {
    indicators = default_all_configs;
    stiffness_decay_per_unit_vibration = decimal 100;
    stiffness_decay_per_unit_strain = decimal 1;
    stiffness_recovery_rate = decimal 10;
    environment_smoothing_factor = decimal 1000;
    usage_accumulation_rate = decimal 10;
    update_buffer_size = pos 64;
    subscriber_buffer_size = pos 16;
    initial_structural_stiffness = fl 1;
    initial_environmental_exposure = fl 0;
    initial_cumulative_usage_load = fl 0;
  }
