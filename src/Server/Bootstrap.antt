-- ===== src/Server/Bootstrap.antt =====
-- cmd/api/main.go: bootstrapAll and what it wires for each property. The goroutine that Run starts
-- is the one of Sync.Machine.
pub mod Laws
use twinval_go_backend.Prelude.{Option, some, List, [], ◌∷◌, if◌then◌else◌, ◌>>=◌}
use twinval_go_backend.Prelude.Text.{Text, codes, text_eq}
use twinval_go_backend.Prelude.Int.{pos}
use twinval_go_backend.Float.{Float64, fl}
use twinval_go_backend.Cryptochain.Types.{ChainConfig, default_chain_config}
use twinval_go_backend.Cryptochain.Chain.{new_chain}
use twinval_go_backend.Exchange.Types.{ExchangeConfig, default_exchange_config, active}
use twinval_go_backend.Exchange.State as Exchange
use twinval_go_backend.Sync.Types.{default_state_machine_config}
use twinval_go_backend.Sync.Machine as Machine
use twinval_go_backend.Config.{AppConfig}
use twinval_go_backend.Ashrae.Buildings.{Building, buildings}
use twinval_go_backend.Api.Registry.{Latest, PropertyState, PropertyRegistry, set}

module _ {W : Type 0} ⦃d : Float64 W⦄ where
  -- The zero values of the cached fields.
  abbrev no_latest : Latest W
  no_latest = record {
    latest_indicators = Machine.zero_indicators;
    latest_hf = fl 0;
    latest_rtpmv = fl 0;
    latest_exchange_params = record {
      property_id = [];
      timestamp = pos 0;
      rtpmv = fl 0;
      bid_price = fl 0;
      ask_price = fl 0;
      spread = fl 0;
      trading_state = active;
    };
  }

  abbrev chain_config : W → W → ChainConfig W
  chain_config land structure =
      let frozen = default_chain_config.frozen_parameters in
      record {
        frozen_parameters = record frozen { land_value = land; structure_value = structure };
      }

  abbrev pub exchange_config : Text → ExchangeConfig W
  exchange_config id = record default_exchange_config { property_id = id }

  -- The property, with its exchange.
  abbrev pub configured_property : AppConfig W → Exchange.PropertyExchange W → PropertyState W
  configured_property cfg exchange = record {
    property_id = cfg.property_id;
    name = cfg.property_id;
    primary_use = [];
    state_machine = Machine.new default_state_machine_config;
    chain = new_chain (chain_config cfg.land_value cfg.structure_value);
    exchange = exchange;
    baseline = record {
      land_value = cfg.land_value;
      structure_value = cfg.structure_value;
      currency = cfg.currency;
      source = [];
    };
    latest = no_latest;
  }

  -- `none` is the panic of exchange.New.
  unfoldable pub bootstrap_property : AppConfig W → Option (PropertyState W)
  unfolding new_chain Machine.new Exchange.new
  bootstrap_property cfg = do
    exchange ← Exchange.new (exchange_config cfg.property_id)
    some (configured_property cfg exchange)

  -- The building, with its exchange.
  abbrev pub catalogued_property : Building W → Exchange.PropertyExchange W → PropertyState W
  catalogued_property b exchange = record {
    property_id = b.key;
    name = b.name;
    primary_use = b.primary_use;
    state_machine = Machine.new default_state_machine_config;
    chain = new_chain (chain_config b.land_value b.structure_value);
    exchange = exchange;
    baseline = record {
      land_value = b.land_value;
      structure_value = b.structure_value;
      currency = b.currency;
      source = [];
    };
    latest = no_latest;
  }

  unfoldable pub bootstrap_ashrae_building : Building W → Option (PropertyState W)
  unfolding new_chain Machine.new Exchange.new
  bootstrap_ashrae_building b = do
    exchange ← Exchange.new (exchange_config b.key)
    some (catalogued_property b exchange)

  -- The loop over the buildings.
  unfoldable pub bootstrap_buildings :
      PropertyRegistry W → List (Building W) → Option (PropertyRegistry W)
  unfolding bootstrap_ashrae_building set
  bootstrap_buildings r [] = some r
  bootstrap_buildings r (b ∷ bs) = do
    ps ← bootstrap_ashrae_building b
    bootstrap_buildings (set r b.key ps) bs

  unfoldable pub bootstrap_all : AppConfig W → PropertyRegistry W → Option (PropertyRegistry W)
  unfolding bootstrap_buildings bootstrap_property set
  bootstrap_all cfg r =
      if text_eq cfg.property_mode (codes "ashrae")
      then bootstrap_buildings r buildings
      else do ps ← bootstrap_property cfg; some (set r cfg.property_id ps)
