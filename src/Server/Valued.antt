-- ===== src/Server/Valued.antt =====
-- cmd/api/main.go in ashrae mode: the values that the server holds, from the sensors on.
use mathlib.Core.List.{Memᴰ}
use twinval_go_backend.Prelude.{
  ℕ, ◌≡◌, ◌⊎◌, inl, inr, refl, true, some, List, [], All, All_of_mem, All-mem,
}
use twinval_go_backend.Prelude.Text.{Text, codes, text_eq}
use twinval_go_backend.Float.{Float64, IsIeee, IsUnit, ◌≼◌, ◌⊕◌}
use twinval_go_backend.Compute.Configs.{AllIndicatorConfigs, default_all_configs}
use twinval_go_backend.Compute.Indicators.{compute_all_indicators}
use twinval_go_backend.Compute.Bounds.{compute_all_indicators-AreUnit, compute_health_factor-IsUnit}
use twinval_go_backend.Compute.Valid.{AreUnit, IsValid}
use twinval_go_backend.Compute.Defaults.{default_all_configs-IsValid}
use twinval_go_backend.Compute.Value.{IsAssessed, compute_rtpmv_bounds}
use twinval_go_backend.Condition.Types.{
  RawSensorBatch, ConditioningConfig, default_conditioning_config,
}
use twinval_go_backend.Condition.Groups.Members.{SortsStrings}
use twinval_go_backend.Condition.Preprocess.Align.{Sorts}
use twinval_go_backend.Condition.Integrity.Report.{IsSettled, IsModest}
use twinval_go_backend.Condition.Process.{process}
use twinval_go_backend.Condition.Process.Clean.{IsCalibrated, IsAged, process-IsClean}
use twinval_go_backend.Condition.Process.Defaults.{default_conditioning_config-IsSettled}
use twinval_go_backend.Config.{AppConfig}
use twinval_go_backend.Exchange.State as Exchange
use twinval_go_backend.Cryptochain.Chain.{new_chain}
use twinval_go_backend.Ashrae.Buildings.{Building, buildings}
use twinval_go_backend.Ashrae.Buildings.Laws.{IsValued, buildings-IsValued}
use twinval_go_backend.Api.Registry.{PropertyState, PropertyRegistry, get}
use twinval_go_backend.Server.Bootstrap.{catalogued_property, bootstrap_all}
use twinval_go_backend.Server.Bootstrap.Laws.{Wired, bootstrap_ashrae-Registered}
use twinval_go_backend.Server.Pipeline.{Runtime, Times, process_property, run_pipeline}
use twinval_go_backend.Server.Pipeline.Laws.{run_pipeline-Registered}

-- Few enough readings from 0.0 to b, and a finite age.
pub record IsUsual {W : Type 0} ⦃d : Float64 W⦄ (b : ℕ) (cfgs : AllIndicatorConfigs W)
    (batch : RawSensorBatch W) : Type 0 where
  pub modest : IsModest b batch
  pub aged : IsAged cfgs batch.property_meta

-- The cached indicators and the Health Factor lie from 0.0 to 1.0, and the value between the bounds.
pub record IsPriced {W : Type 0} ⦃d : Float64 W⦄ (low high : W) (ps : PropertyState W)
    : Type 0 where
  pub indicators : AreUnit ps.latest.latest_indicators
  pub health : IsUnit ps.latest.latest_hf
  pub above : low ≼ ps.latest.latest_rtpmv
  pub below : ps.latest.latest_rtpmv ≼ high

-- A building of the catalogue, priced once it has a token.
pub record IsHeld {W : Type 0} ⦃d : Float64 W⦄ (ps : PropertyState W) : Type 0 where
  pub building : Building W
  pub catalogued : Memᴰ building buildings
  pub id : ps.property_id ≡ building.key
  pub land : ps.baseline.land_value ≡ building.land_value
  pub structure : ps.baseline.structure_value ≡ building.structure_value
  pub priced : (ps.chain.tokens ≡ []) ⊎ IsPriced building.land_value building.govt_valuation ps

-- The same bounds in other words.
pub between :
    {W : Type 0} ⦃d : Float64 W⦄ {low low' high high' : W} (ps : PropertyState W)
    → low ≡ low'
    → high ≡ high'
    → IsPriced low high ps
    → IsPriced low' high' ps
between ps e f p = record {
  indicators = p.indicators;
  health = p.health;
  above = rw (← e) p.above;
  below = rw (← f) p.below;
}

module _ {W : Type 0} ⦃d : Float64 W⦄ (laws : IsIeee W) (rt : Runtime W)
    (sorts : Sorts W rt.sorting) (sorts_strings : SortsStrings rt.sorting.sort_strings) where
  pub process_property-IsPriced :
      (cfg : ConditioningConfig W) (cfgs : AllIndicatorConfigs W) (b : ℕ) (ps : PropertyState W)
      (batch : RawSensorBatch W) (now : Times)
      → IsSettled cfg
      → IsValid cfgs
      → IsCalibrated cfgs
      → IsUsual b cfgs batch
      → IsAssessed ps.baseline
      → IsPriced ps.baseline.land_value
          (ps.baseline.land_value ⊕ ps.baseline.structure_value)
          (process_property rt ps (process rt.sorting batch cfg).0 cfgs now)
  unfolding process_property
  process_property-IsPriced cfg cfgs b ps batch now s v c u a =
      let cd = (process rt.sorting batch cfg).0 in
      let clean =
        (process-IsClean laws rt.sorting sorts sorts_strings b batch cfg cfgs s c u.modest
          u.aged).0 in
      let units = compute_all_indicators-AreUnit laws cd cfgs v clean in
      let health = (compute_health_factor-IsUnit laws (compute_all_indicators cd cfgs) units).0 in
      let (low, high) = compute_rtpmv_bounds laws ps.baseline _ a health in
      record { indicators = units; health = health; above = low; below = high }

  process_property-IsHeld :
      (b : ℕ) (ps : PropertyState W) (batch : RawSensorBatch W) (now : Times)
      → IsCalibrated {W = W} default_all_configs
      → IsUsual b default_all_configs batch
      → IsHeld ps
      → IsHeld (
          process_property rt ps
            (process rt.sorting batch default_conditioning_config).0
            default_all_configs
            now)
  unfolding process_property
  process_property-IsHeld b ps batch now c u h =
      let v = All-mem IsValued buildings (buildings-IsValued laws) h.building h.catalogued in
      let a : IsAssessed ps.baseline = record {
        land = rw h.land v.land;
        structure = rw h.structure v.structure;
        structure_nonneg = rw h.structure v.structure_nonneg;
      } in
      let p =
        process_property-IsPriced default_conditioning_config default_all_configs b ps batch now
          (default_conditioning_config-IsSettled laws) (default_all_configs-IsValid laws) c u a in
      let total : ps.baseline.land_value ⊕ ps.baseline.structure_value ≡ h.building.govt_valuation =
        rw (h.land, h.structure) v.total in
      record {
        building = h.building;
        catalogued = h.catalogued;
        id = h.id;
        land = h.land;
        structure = h.structure;
        priced = inr (between _ h.land total p);
      }

  catalogued-IsHeld :
      (b : Building W) (px : Exchange.PropertyExchange W)
      → Memᴰ b buildings
      → IsHeld (catalogued_property b px)
  unfolding new_chain
  catalogued-IsHeld b px m = record {
    building = b;
    catalogued = m;
    id = refl;
    land = refl;
    structure = refl;
    priced = inl refl;
  }

  -- In ashrae mode, with the default settings, and after any sequence of batches with few enough
  -- readings from 0.0 to b and a finite age: every registered property is a building of the
  -- catalogue with that building's land and structure value; and once it has a token, its cached
  -- indicators and its Health Factor lie from 0.0 to 1.0, and its cached value from the land value
  -- of the building to its government valuation.
  pub served_values_bounded :
      (cfg : AppConfig W) (b : ℕ) (batches : List (RawSensorBatch W × Times))
      → text_eq cfg.property_mode (codes "ashrae") ≡ true
      → IsCalibrated {W = W} default_all_configs
      → All (λ (e : RawSensorBatch W × Times). IsUsual b default_all_configs e.0) batches
      → (r : PropertyRegistry W) × (bootstrap_all cfg [] ≡ some r)
        × ((id : Text) (ps : PropertyState W)
            → get
                (run_pipeline rt cfg default_conditioning_config default_all_configs
                  (record { registry = r; hub = [] })
                  batches).registry
                id
              ≡ some ps
            → IsHeld ps)
  served_values_bounded cfg b batches mode c usual =
      let (r, e, all) =
        bootstrap_ashrae-Registered laws IsHeld cfg mode
          (All_of_mem (Wired IsHeld) (buildings {W = W}) (λ b m px. catalogued-IsHeld b px m)) in
      (
        r,
        e,
        run_pipeline-Registered rt cfg default_conditioning_config default_all_configs IsHeld
            (IsUsual b default_all_configs)
            (λ ps batch now u h. process_property-IsHeld b ps batch now c u h)
            (record { registry = r; hub = [] }) batches usual all,
      )
