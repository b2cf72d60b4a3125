-- ===== src/Api/Registry.antt =====
-- api/handlers.go: PropertyState and PropertyRegistry. The registry holds pointers: what changes
-- through one is written back under its key. The mutexes make each method one step.
pub mod Laws
use twinval_go_backend.Prelude.{ℕ, Option, none, some, List, [], ◌∷◌, map, length, ◌>>=◌}
use twinval_go_backend.Prelude.Text.{Text}
use twinval_go_backend.Prelude.Maps.{lookup, insert, keys}
use twinval_go_backend.Compute.Types.{TechnicalIndicators, BaselineMarketValue}
use twinval_go_backend.Cryptochain.Chain.{CryptoChain}
use twinval_go_backend.Exchange.Types.{ExchangeParams}
use twinval_go_backend.Exchange.State.{PropertyExchange}
use twinval_go_backend.Sync.Machine.{StateMachine}

-- The values that are cached for the REST handlers.
pub record Latest (W : Type 0) : Type 0 where
  pub latest_indicators : TechnicalIndicators W
  pub latest_hf : W
  pub latest_rtpmv : W
  pub latest_exchange_params : ExchangeParams W

pub record PropertyState (W : Type 0) : Type 0 where
  pub property_id : Text
  pub name : Text
  pub primary_use : Text
  pub state_machine : StateMachine W
  pub chain : CryptoChain W
  pub exchange : PropertyExchange W
  pub baseline : BaselineMarketValue W
  pub latest : Latest W

-- `map[string]*PropertyState`.
abbrev pub PropertyRegistry : Type 0 → Type 0
PropertyRegistry W = List (Text × PropertyState W)

module _ {W : Type 0} where
  unfoldable pub update_latest :
      PropertyState W → TechnicalIndicators W → W → W → ExchangeParams W → PropertyState W
  update_latest ps ind hf rtpmv ep = record ps {
    latest = record {
      latest_indicators = ind;
      latest_hf = hf;
      latest_rtpmv = rtpmv;
      latest_exchange_params = ep;
    };
  }

  unfoldable pub snapshot : PropertyState W → Latest W
  snapshot ps = ps.latest

  abbrev new_property_registry : PropertyRegistry W
  new_property_registry = []

  unfoldable pub get : PropertyRegistry W → Text → Option (PropertyState W)
  get r id = lookup id r

  unfoldable pub set : PropertyRegistry W → Text → PropertyState W → PropertyRegistry W
  set r id ps = insert id ps r

  unfoldable pub len : PropertyRegistry W → ℕ
  len r = length r

  -- The pointers in the order of the sorted keys; `none` is nil.
  unfoldable pub snapshot_all :
      (List Text → List Text) → PropertyRegistry W → List (Option (PropertyState W))
  snapshot_all sort_strings r = map (λ k. lookup k r) (sort_strings (keys r))
