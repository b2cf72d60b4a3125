-- ===== src/Exchange/Types.antt =====
-- internal/exchange/types.go, and TradingStateString of state.go.
use twinval_go_backend.Prelude.{zero, suc, Bool, true, false, [], Option, none, some, if◌then◌else◌}
use twinval_go_backend.Prelude.Int.{ℤ, pos}
use twinval_go_backend.Prelude.Text.{Text, codes}
use twinval_go_backend.Float.{Float64, decimal, ◌≤?◌}

pub data TradingState : Type 0 where
  active restricted halted : TradingState

-- The `iota` constants.
abbrev trading_state_code : TradingState → ℤ
trading_state_code active = pos 0
trading_state_code restricted = pos 1
trading_state_code halted = pos 2

abbrev pub is_halted : TradingState → Bool
is_halted halted = true
is_halted _ = false

abbrev pub is_active : TradingState → Bool
is_active active = true
is_active _ = false

abbrev pub is_restricted : TradingState → Bool
is_restricted restricted = true
is_restricted _ = false

-- On any value of the integer type.
trading_state_string : ℤ → Text
trading_state_string (pos zero) = codes "ACTIVE"
trading_state_string (pos (suc zero)) = codes "RESTRICTED"
trading_state_string (pos (suc (suc zero))) = codes "HALTED"
trading_state_string _ = codes "UNKNOWN"

pub record ExchangeParams (W : Type 0) : Type 0 where
  pub property_id : Text
  pub timestamp : ℤ
  pub rtpmv : W
  pub bid_price : W
  pub ask_price : W
  pub spread : W
  pub trading_state : TradingState

pub record CircuitBreakerEvent (W : Type 0) : Type 0 where
  pub timestamp : ℤ
  pub volatility : W
  pub threshold : W
  pub prior_state : TradingState

pub record ExchangeConfig (W : Type 0) : Type 0 where
  pub property_id : Text
  pub base_spread : W
  pub first_threshold : W
  pub second_threshold : W
  pub volatility_threshold : W
  pub volatility_window_size : ℤ
  pub restricted_band_width : W

module _ {W : Type 0} ⦃d : Float64 W⦄ where
  -- `none` is the panic.
  unfoldable pub must_validate : ExchangeConfig W → Option (Unit {0})
  must_validate cfg = if cfg.first_threshold ≤? cfg.second_threshold then none else some tt

  -- Its own call of MustValidate passes: see `State`.
  abbrev pub default_exchange_config : ExchangeConfig W
  default_exchange_config = record {
    property_id = [];
    base_spread = decimal 200;
    first_threshold = decimal 6000;
    second_threshold = decimal 3500;
    volatility_threshold = decimal 1500;
    volatility_window_size = pos 10;
    restricted_band_width = decimal 500;
  }
