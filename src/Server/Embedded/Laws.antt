-- ===== src/Server/Embedded/Laws.antt =====
-- The embedded simulator in single-property mode, from the bootstrap on.
use twinval_go_backend.Prelude.{ℕ, ◌≡◌, ◌≢◌, ◌⊎◌, [], length}
use twinval_go_backend.Float.{Float64, IsFinite, fl, ◌⊕◌, ◌≼◌}
use twinval_go_backend.Config.{AppConfig}
use twinval_go_backend.Api.Registry.{PropertyState}
use twinval_go_backend.Server.Pipeline.{Server}
use twinval_go_backend.Server.Valued.{IsPriced}

module _ {W : Type 0} ⦃d : Float64 W⦄ (cfg : AppConfig W) where
  -- The configured property after n batches.
  record IsFed (n : ℕ) (ps : PropertyState W) : Type 0 where
    pub named : ps.property_id ≢ []
    pub land : ps.baseline.land_value ≡ cfg.land_value
    pub structure : ps.baseline.structure_value ≡ cfg.structure_value
    pub tokens : length ps.chain.tokens ≡ n
    pub priced : (n ≡ 0) ⊎ IsPriced cfg.land_value (cfg.land_value ⊕ cfg.structure_value) ps

  -- Land and structure values that are finite, the structure's not negative.
  pub record HasValues : Type 0 where
    pub land : IsFinite cfg.land_value
    pub structure : IsFinite cfg.structure_value
    pub structure_nonneg : fl 0 ≼ cfg.structure_value
