-- ===== src/Sync/Tests.antt =====
-- The theorems on internal/sync at a short run, over whole ten-thousandths.
use twinval_go_backend.Prelude.{◌≡◌, refl, List, [], ◌∷◌, map, some}
use twinval_go_backend.Prelude.Int.{ℤ, pos}
use twinval_go_backend.Float.{◌≼◌}
use twinval_go_backend.Float.Fixed.{Fixed, fixed_float}
use twinval_go_backend.Float.Fixed.Laws.{Fixed-IsIeee}
use twinval_go_backend.Compute.Types.{ConditionedData}
use twinval_go_backend.Compute.Tests.{degraded, default_configs-IsValid, degraded-IsClean}
use twinval_go_backend.Sync.Types.{StateMachineConfig, default_state_machine_config}
use twinval_go_backend.Sync.Evolution.{state_update}
use twinval_go_backend.Sync.Evolution.Laws.{HasRates}
use twinval_go_backend.Sync.Evolution.History.{IsInRange, evolve_all, evolve_all-IsInRange}
use twinval_go_backend.Sync.Machine.{
  StateMachine, new, update, subscribe, apply_update, broadcast, initial_state, by_update,
  by_subscribe, by_apply, by_cancel, Reachable, start, next, selecting, stopping,
}
use twinval_go_backend.Sync.Machine.Refinement.{all_processed, Reachable-evolve_all}
use twinval_go_backend.Channel.Store.{delivered}
use twinval_go_backend.Sync.Machine.Laws.{Reachable-IsSafe, broadcast_delivers}
use twinval_go_backend.Sync.Machine.Safe.{IsSafe}

abbrev config : StateMachineConfig Fixed
config = default_state_machine_config

abbrev readings : List (ConditionedData Fixed × ℤ)
readings = (degraded, pos 1) ∷ (degraded, pos 2) ∷ []

default-HasRates : HasRates config
default-HasRates = record {
  vibration_ceiling = ((refl, refl), refl);
  strain_ceiling = ((refl, refl), refl);
  vibration_decay = (refl, (refl, refl));
  strain_decay = (refl, (refl, refl));
  recovery = (refl, (refl, refl));
  smoothing = (refl, refl);
  accumulation = (refl, (refl, refl));
}

initial-IsInRange : IsInRange (initial_state config)
initial-IsInRange = record {
  stiffness = (refl, refl);
  exposure = (refl, refl);
  load = refl;
  health = (refl, refl);
}

-- Subscribe, then Update, then the first half of applyUpdate.
abbrev offered : StateMachine Fixed
offered = update (subscribe (new config)) degraded

abbrev processing : StateMachine Fixed
processing = apply_update offered degraded [] (pos 1)

-- Subscribe, then the end of the context.
abbrev ending : StateMachine Fixed
ending = record (subscribe (new config)) { run = stopping }

processing-Reachable : Reachable config processing
unfolding new subscribe update
processing-Reachable =
    next offered processing
      (next (subscribe (new config)) offered
        (next (new config) (subscribe (new config)) start (by_subscribe (new config)))
        (by_update (subscribe (new config)) degraded))
      (by_apply offered degraded [] (pos 1) refl refl)

ending-Reachable : Reachable config ending
unfolding new subscribe
ending-Reachable =
    next (subscribe (new config)) ending
      (next (new config) (subscribe (new config)) start (by_subscribe (new config)))
      (by_cancel (subscribe (new config)) refl)

Reachable-IsSafe_example : IsSafe processing
Reachable-IsSafe_example = Reachable-IsSafe config processing processing-Reachable

Reachable-evolve_all_example :
    (processing.cfg ≡ (new config).cfg)
    × (processing.state
        ≡ evolve_all (new config).cfg (initial_state config) (all_processed processing-Reachable))
Reachable-evolve_all_example = Reachable-evolve_all config processing processing-Reachable

broadcast_delivers_example :
    broadcast processing (state_update config processing.state degraded)
    ≡ some (record processing {
      channels =
          map (delivered (state_update config processing.state degraded)) processing.channels;
      run = selecting;
    })
unfolding apply_update new subscribe update
broadcast_delivers_example =
    broadcast_delivers config processing (state_update config processing.state degraded)
      processing-Reachable refl

evolve_all_example :
    IsInRange (evolve_all config (initial_state config) readings)
    × ((initial_state config).cumulative_usage_load
        ≼ (evolve_all config (initial_state config) readings).cumulative_usage_load)
evolve_all_example =
    evolve_all-IsInRange Fixed-IsIeee config (initial_state config) readings default_configs-IsValid
      default-HasRates (degraded-IsClean, (degraded-IsClean, tt)) initial-IsInRange
