-- ===== src/Sync/Evolution.antt =====
-- internal/sync/evolution.go, and the part of applyUpdate (internal/sync/statemachine.go) that holds
-- the lock of the state.
pub mod Laws
pub mod History
use twinval_go_backend.Prelude.{ℕ, ◌+◌, ◌%◌, ◌^◌, Bool, true, false, if◌then◌else◌}
use twinval_go_backend.Prelude.Int.{ℤ}
use twinval_go_backend.Float.{Float64, fl, ◌⊕◌, ◌⊖◌, ◌⊗◌, ◌<?◌}
use twinval_go_backend.Float.Order.{clamp}
use twinval_go_backend.Compute.Types.{ConditionedData, HealthFactor}
use twinval_go_backend.Compute.Indicators.{compute_all_indicators, compute_health_factor}
use twinval_go_backend.Sync.Types.{DigitalTwinState, StateUpdate, StateMachineConfig}

module _ {W : Type 0} ⦃d : Float64 W⦄ where
  abbrev pub excess_penalty : ConditionedData W → StateMachineConfig W → W
  excess_penalty x cfg =
      d.max (fl 0) (x.vibration_magnitude ⊖ cfg.indicators.shf.vibration_normal_ceiling)
        ⊗ cfg.stiffness_decay_per_unit_vibration
      ⊕ d.max (fl 0) (x.strain_magnitude ⊖ cfg.indicators.shf.strain_normal_ceiling)
        ⊗ cfg.stiffness_decay_per_unit_strain

  unfoldable pub evolve_structural_stiffness : W → ConditionedData W → StateMachineConfig W → W
  evolve_structural_stiffness current x cfg =
      let penalty = excess_penalty x cfg in
      let next =
        if fl 0 <? penalty
        then current ⊖ penalty
        else current ⊕ cfg.stiffness_recovery_rate ⊗ (fl 1 ⊖ current) in
      clamp next (fl 0) (fl 1)

  unfoldable pub evolve_environmental_exposure : W → W → StateMachineConfig W → W
  evolve_environmental_exposure current esf cfg =
      let alpha = cfg.environment_smoothing_factor in
      let badness = fl 1 ⊖ esf in clamp (alpha ⊗ badness ⊕ (fl 1 ⊖ alpha) ⊗ current) (fl 0) (fl 1)

  unfoldable pub evolve_cumulative_usage_load : W → W → StateMachineConfig W → W
  evolve_cumulative_usage_load current uss cfg =
      let increment = uss ⊗ cfg.usage_accumulation_rate in
      if increment <? fl 0 then current else current ⊕ increment

  abbrev evolve_overall_health : HealthFactor W → HealthFactor W
  evolve_overall_health hf = hf

  -- The new state. `now` is the clock.
  unfoldable pub evolve :
      StateMachineConfig W → DigitalTwinState W → ConditionedData W → ℤ → DigitalTwinState W
  unfolding evolve_structural_stiffness evolve_environmental_exposure evolve_cumulative_usage_load
  evolve cfg s x now =
      let indicators = compute_all_indicators x cfg.indicators in
      record {
        structural_stiffness = evolve_structural_stiffness s.structural_stiffness x cfg;
        environmental_exposure_history =
            evolve_environmental_exposure s.environmental_exposure_history indicators.esf cfg;
        cumulative_usage_load =
            evolve_cumulative_usage_load s.cumulative_usage_load indicators.uss cfg;
        overall_health = evolve_overall_health (compute_health_factor indicators);
        last_indicators = indicators;
        last_updated_at = now;
        update_count = (s.update_count + 1) % 2 ^ 64;
      }

  -- What is broadcast.
  unfoldable pub state_update :
      StateMachineConfig W → DigitalTwinState W → ConditionedData W → StateUpdate W
  state_update cfg snapshot x = record {
    state = snapshot;
    source_data = x;
    indicators = compute_all_indicators x cfg.indicators;
    updated_at = snapshot.last_updated_at;
  }
