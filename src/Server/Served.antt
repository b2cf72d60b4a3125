-- ===== src/Server/Served.antt =====
-- cmd/api/main.go: main's bootstrap followed by its pipeline, from any environment.
use twinval_go_backend.Prelude.{
  ◌≡◌, ◌≢◌, ◌⊎◌, inl, refl, true, some, List, [], All, All_of_mem, All-mem,
}
use twinval_go_backend.Prelude.Text.{Text}
use twinval_go_backend.Float.{Float64, IsIeee, ◌≼◌, ◌⊕◌}
use twinval_go_backend.Compute.Types.{ConditionedData}
use twinval_go_backend.Compute.Configs.{AllIndicatorConfigs}
use twinval_go_backend.Compute.Indicators.{compute_all_indicators}
use twinval_go_backend.Compute.Bounds.{compute_all_indicators-AreUnit, compute_health_factor-IsUnit}
use twinval_go_backend.Compute.Valid.{IsValid, IsClean}
use twinval_go_backend.Compute.Value.{IsAssessed, compute_rtpmv_bounds}
use twinval_go_backend.Condition.Types.{RawSensorBatch, ConditioningConfig}
use twinval_go_backend.Cryptochain.Verify.{verify}
use twinval_go_backend.Cryptochain.Verify.Correct.{verify-IsLinked}
use twinval_go_backend.Cryptochain.Chain.{new_chain}
use twinval_go_backend.Exchange.State as Exchange
use twinval_go_backend.Config.{AppConfig, Parsers, Env, load_from_env}
use twinval_go_backend.Config.Laws.{load_from_env-IsUsable}
use twinval_go_backend.Ashrae.Buildings.{Building, buildings}
use twinval_go_backend.Api.Registry.{PropertyState, PropertyRegistry, get}
use twinval_go_backend.Server.Bootstrap.{configured_property, catalogued_property, bootstrap_all}
use twinval_go_backend.Server.Bootstrap.Laws.{Wired, bootstrap_all-Registered}
use twinval_go_backend.Server.Pipeline.{Runtime, Times, process_property, run_pipeline}
use twinval_go_backend.Server.Pipeline.Laws.{IsSound, IsCurrent, AllSound, run_pipeline-AllSound}

module _ {W : Type 0} ⦃d : Float64 W⦄ (laws : IsIeee W) where
  open laws use {decimal_lt, IsNum-of_lt, lt-eq-not-le}

  module _ (rt : Runtime W) where
    -- A property with a name, and nothing recorded yet.
    catalogued-IsSound :
        (b : Building W) (px : Exchange.PropertyExchange W)
        → b.key ≢ []
        → IsSound rt.library (catalogued_property b px)
    unfolding new_chain
    catalogued-IsSound b px n = record { named = n; linked = tt; current = inl refl }

    configured-IsSound :
        (cfg : AppConfig W) (px : Exchange.PropertyExchange W)
        → cfg.property_id ≢ []
        → IsSound rt.library (configured_property cfg px)
    unfolding new_chain
    configured-IsSound cfg px n = record { named = n; linked = tt; current = inl refl }

    named_buildings : All (λ (b : Building W). b.key ≢ []) buildings
    named_buildings = (λ e. cc, (λ e. cc, (λ e. cc, (λ e. cc, (λ e. cc, tt)))))

    bootstrap_all-AllSound :
        (cfg : AppConfig W)
        → cfg.property_id ≢ []
        → (r : PropertyRegistry W) × (bootstrap_all cfg [] ≡ some r) × AllSound rt r
    bootstrap_all-AllSound cfg n =
        bootstrap_all-Registered laws (IsSound rt.library) cfg
          (All_of_mem (Wired (IsSound rt.library)) (buildings {W = W}) (λ b m px.
            catalogued-IsSound b px
              (All-mem (λ (c : Building W). c.key ≢ []) buildings named_buildings b m)))
          (λ px. configured-IsSound cfg px n)

    -- Whatever the environment, the server's bootstrap does not panic. After it and any sequence of
    -- batches, Verify reports the chain of every registered property valid; and once a property
    -- has a token, its newest token, its quote and its cached values tell the same value.
    pub served_chains_verify :
        (lib : Parsers W) (env : Env) (cond_cfg : ConditioningConfig W)
        (cfgs : AllIndicatorConfigs W) (batches : List (RawSensorBatch W × Times))
        → let cfg = load_from_env lib env in
          (r : PropertyRegistry W) × (bootstrap_all cfg [] ≡ some r)
          × ((id : Text) (ps : PropertyState W)
              → get
                  (run_pipeline rt cfg cond_cfg cfgs
                    (record { registry = r; hub = [] })
                    batches).registry
                  id
                ≡ some ps
              → ((verify rt.library ps.chain).chain_valid ≡ true)
                × ((ps.chain.tokens ≡ []) ⊎ IsCurrent ps))
    served_chains_verify lib env cond_cfg cfgs batches =
        let cfg : AppConfig W = load_from_env lib env in
        let (r, e, all) = bootstrap_all-AllSound cfg (load_from_env-IsUsable lib env).property_id in
        (
          r,
          e,
          λ id ps f.
              let v =
                run_pipeline-AllSound rt cfg cond_cfg cfgs (record { registry = r; hub = [] })
                  batches all id ps f in
              ((verify-IsLinked rt.library ps.chain v.linked).0, v.current),
        )

    -- A batch whose conditioned data is clean, of a property with assessed values, under valid
    -- indicator settings: the value that is cached, quoted and recorded is at least the land value
    -- and at most land plus structure.
    process_property_bounds :
        (ps : PropertyState W) (cd : ConditionedData W) (cfgs : AllIndicatorConfigs W) (now : Times)
        → IsAssessed ps.baseline
        → IsValid cfgs
        → IsClean cfgs cd
        → let value = (process_property rt ps cd cfgs now).latest.latest_rtpmv in
          (ps.baseline.land_value ≼ value)
          × (value ≼ ps.baseline.land_value ⊕ ps.baseline.structure_value)
    unfolding process_property
    process_property_bounds ps cd cfgs now a v c =
        let ind = compute_all_indicators cd cfgs in
        let units = compute_all_indicators-AreUnit laws cd cfgs v c in
        compute_rtpmv_bounds laws ps.baseline _ a (compute_health_factor-IsUnit laws ind units).0
