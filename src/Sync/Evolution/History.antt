-- ===== src/Sync/Evolution/History.antt =====
-- The digital twin after any sequence of clean readings.
use twinval_go_backend.Prelude.{List, [], ◌∷◌, All}
use twinval_go_backend.Prelude.Int.{ℤ}
use twinval_go_backend.Float.{Float64, IsIeee, IsUnit, fl, ◌≼◌}
use twinval_go_backend.Compute.Types.{ConditionedData}
use twinval_go_backend.Compute.Bounds.{compute_all_indicators-AreUnit, compute_health_factor-IsUnit}
use twinval_go_backend.Compute.Valid.{IsValid, IsClean}
use twinval_go_backend.Sync.Types.{DigitalTwinState, StateMachineConfig}
use twinval_go_backend.Sync.Evolution.{evolve}
use twinval_go_backend.Sync.Evolution.Laws.{
  HasRates, evolve_structural_stiffness-IsUnit, evolve_environmental_exposure-IsUnit,
  evolve_cumulative_usage_load_grows,
}

module _ {W : Type 0} ⦃d : Float64 W⦄ where
  -- The ranges that the fields of DigitalTwinState are documented with.
  pub record IsInRange (s : DigitalTwinState W) : Type 0 where
    pub stiffness : IsUnit s.structural_stiffness
    pub exposure : IsUnit s.environmental_exposure_history
    pub load : fl 0 ≼ s.cumulative_usage_load
    pub health : IsUnit s.overall_health

  -- The readings in their order, each with the time it was processed at.
  unfoldable pub evolve_all :
      StateMachineConfig W → DigitalTwinState W → List (ConditionedData W × ℤ) → DigitalTwinState W
  evolve_all cfg s [] = s
  evolve_all cfg s ((x, now) ∷ xs) = evolve_all cfg (evolve cfg s x now) xs

module _ {W : Type 0} ⦃d : Float64 W⦄ (laws : IsIeee W) where
  open laws use {le_trans, IsNum-of_le}

  evolve-IsInRange :
      (cfg : StateMachineConfig W) (s : DigitalTwinState W) (x : ConditionedData W) (now : ℤ)
      → IsValid cfg.indicators
      → HasRates cfg
      → IsClean cfg.indicators x
      → IsInRange s
      → IsInRange (evolve cfg s x now)
        × (s.cumulative_usage_load ≼ (evolve cfg s x now).cumulative_usage_load)
  unfolding evolve
  evolve-IsInRange cfg s x now v r c h =
      let units = compute_all_indicators-AreUnit laws x cfg.indicators v c in
      let grows =
        evolve_cumulative_usage_load_grows laws s.cumulative_usage_load _ cfg r h.load units.2 in
      (
        record {
          stiffness =
              (evolve_structural_stiffness-IsUnit laws s.structural_stiffness x cfg r c.vibration
                c.strain h.stiffness).0;
          exposure =
              evolve_environmental_exposure-IsUnit laws s.environmental_exposure_history _ cfg r
                h.exposure units.1;
          load = le_trans _ _ _ h.load grows;
          health = (compute_health_factor-IsUnit laws _ units).0;
        },
        grows,
      )

  -- The digital twin over any sequence of clean readings, with valid calibration and rates, from a
  -- state in range: stiffness, exposure and health stay in the unit interval, and the usage load
  -- ends no lower than it began.
  pub evolve_all-IsInRange :
      (cfg : StateMachineConfig W) (s : DigitalTwinState W) (xs : List (ConditionedData W × ℤ))
      → IsValid cfg.indicators
      → HasRates cfg
      → All (λ (p : ConditionedData W × ℤ). IsClean cfg.indicators p.0) xs
      → IsInRange s
      → IsInRange (evolve_all cfg s xs)
        × (s.cumulative_usage_load ≼ (evolve_all cfg s xs).cumulative_usage_load)
  unfolding evolve_all
  evolve_all-IsInRange cfg s [] v r c h = (h, (IsNum-of_le _ _ h.load).1)
  evolve_all-IsInRange cfg s ((x, now) ∷ xs) v r (c, cs) h =
      let (h', up) = evolve-IsInRange cfg s x now v r c h in
      let (h'', more) = evolve_all-IsInRange cfg (evolve cfg s x now) xs v r cs h' in
      (h'', le_trans _ _ _ up more)
