-- ===== src/Server/Bootstrap/Laws.antt =====
-- bootstrapAll (cmd/api/main.go) does not panic, and what every property has that it wires, every
-- registered property has.
use twinval_go_backend.Prelude.{
  ◌≡◌, inl, inr, refl, true, false, some, List, [], ◌∷◌, arith, All, Bool-cases,
}
use twinval_go_backend.Prelude.Text.{Text, codes, text_eq}
use twinval_go_backend.Float.{Float64, IsIeee, decimal, ◌≤?◌}
use twinval_go_backend.Exchange.Types.{must_validate}
use twinval_go_backend.Exchange.State as Exchange
use twinval_go_backend.Config.{AppConfig}
use twinval_go_backend.Ashrae.Buildings.{Building, buildings}
use twinval_go_backend.Api.Registry.{PropertyState, PropertyRegistry, set}
use twinval_go_backend.Api.Registry.Laws.{Registered, none-Registered, set-Registered}
use twinval_go_backend.Server.Bootstrap.{
  exchange_config, configured_property, catalogued_property, bootstrap_property,
  bootstrap_ashrae_building, bootstrap_buildings, bootstrap_all,
}

-- Whatever exchange the building gets.
abbrev pub Wired : {W : Type 0} ⦃d : Float64 W⦄ → (PropertyState W → Type 0) → Building W → Type 0
Wired {W} P b = (px : Exchange.PropertyExchange W) → P (catalogued_property b px)

module _ {W : Type 0} ⦃d : Float64 W⦄ (laws : IsIeee W) where
  open laws use {decimal_lt, IsNum-of_lt, lt-eq-not-le}

  thresholds : (decimal {W = W} 6000 ≤? decimal 3500) ≡ false
  thresholds =
      let e = decimal_lt 3500 6000 (omega arith) (omega arith) in
      let (p, q) = IsNum-of_lt (decimal 3500) (decimal 6000) e in
      ground (arith, e, lt-eq-not-le (decimal 3500) (decimal 6000) p q)

  -- exchange.New does not panic on the defaults.
  pub new_exchange : (id : Text) → (px : _) × (Exchange.new (exchange_config {W = W} id) ≡ some px)
  unfolding Exchange.new
  new_exchange id =
      (Exchange.seeded (exchange_config id), rw (Exchange.new, must_validate, thresholds) refl)

  module _ (P : PropertyState W → Type 0) where
    bootstrap_buildings-Registered :
        (r : PropertyRegistry W) (bs : List (Building W))
        → All (Wired P) bs
        → Registered P r
        → (r' : PropertyRegistry W) × (bootstrap_buildings r bs ≡ some r') × Registered P r'
    unfolding bootstrap_buildings bootstrap_ashrae_building
    bootstrap_buildings-Registered r [] _ all = (r, refl, all)
    bootstrap_buildings-Registered r (b ∷ bs) (p, ps) all =
        let (px, e) = new_exchange b.key in
        let (r', f, all') =
          bootstrap_buildings-Registered (set r b.key (catalogued_property b px)) bs ps
            (set-Registered P r b.key (catalogued_property b px) (p px) all) in
        (r', rw (bootstrap_buildings, bootstrap_ashrae_building, e) f, all')

    -- In ashrae mode.
    pub bootstrap_ashrae-Registered :
        (cfg : AppConfig W)
        → text_eq cfg.property_mode (codes "ashrae") ≡ true
        → All (Wired P) buildings
        → (r : PropertyRegistry W) × (bootstrap_all cfg [] ≡ some r) × Registered P r
    unfolding bootstrap_all
    bootstrap_ashrae-Registered cfg m p =
        let (r, e, all) = bootstrap_buildings-Registered [] buildings p (none-Registered P) in
        (r, rw (bootstrap_all, m, e) refl, all)

    pub bootstrap_all-Registered :
        (cfg : AppConfig W)
        → All (Wired P) buildings
        → ((px : Exchange.PropertyExchange W) → P (configured_property cfg px))
        → (r : PropertyRegistry W) × (bootstrap_all cfg [] ≡ some r) × Registered P r
    unfolding bootstrap_all bootstrap_property
    bootstrap_all-Registered cfg p q =
        elim (Bool-cases (text_eq cfg.property_mode (codes "ashrae"))) [
          | inl m ↦ bootstrap_ashrae-Registered cfg m p
          | inr m ↦
              let (px, e) = new_exchange cfg.property_id in
              (
                set [] cfg.property_id (configured_property cfg px),
                rw (bootstrap_all, m, bootstrap_property, e) refl,
                set-Registered P [] cfg.property_id (configured_property cfg px) (q px)
                    (none-Registered P),
              )
        ]
