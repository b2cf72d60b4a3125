-- ===== src/Exchange/State.antt =====
-- internal/exchange/state.go. The clock is an argument: Update reads it once for the event and once
-- for the quote.
pub mod Classify
pub mod History
pub mod Breaker
pub mod Quotes
use twinval_go_backend.Prelude.{ℕ, Bool, true, false, ◌&&◌, not, Option, none, some, if◌then◌else◌}
use twinval_go_backend.Prelude.Int.{ℤ, pos}
use twinval_go_backend.Prelude.Text.{Text}
use twinval_go_backend.Float.{Float64, fl, ◌<?◌}
use twinval_go_backend.Compute.Types.{TechnicalIndicators}
use twinval_go_backend.Compute.Indicators.{compute_health_factor}
use twinval_go_backend.Exchange.Types.{
  TradingState, active, restricted, halted, is_active, is_halted, is_restricted, ExchangeParams,
  CircuitBreakerEvent, ExchangeConfig, must_validate,
}
use twinval_go_backend.Exchange.Pricing.{compute_spread, compute_bid_ask, apply_restricted_band}
use twinval_go_backend.Exchange.Volatility.{
  VolatilityWindow, new_volatility_window, push, volatility, is_full, capacity_or_default,
}

pub record PropertyExchange (W : Type 0) : Type 0 where
  pub cfg : ExchangeConfig W
  pub params : ExchangeParams W
  pub last_good_rtpmv : W
  pub window : VolatilityWindow W

module _ {W : Type 0} ⦃d : Float64 W⦄ where
  -- Past MustValidate. A window size that is not positive becomes 10, here and in the window.
  abbrev pub seeded : ExchangeConfig W → PropertyExchange W
  seeded cfg = record {
    cfg = record cfg {
      volatility_window_size = pos (capacity_or_default cfg.volatility_window_size);
    };
    params = record {
      property_id = cfg.property_id;
      timestamp = pos 0;
      rtpmv = fl 0;
      bid_price = fl 0;
      ask_price = fl 0;
      spread = fl 0;
      trading_state = active;
    };
    last_good_rtpmv = fl 0;
    window = new_volatility_window (pos (capacity_or_default cfg.volatility_window_size));
  }

  -- `none` is the panic of MustValidate.
  unfoldable pub new : ExchangeConfig W → Option (PropertyExchange W)
  unfolding must_validate
  new cfg = elim (must_validate cfg) [ none ↦ none | some _ ↦ some (seeded cfg) ]

  unfoldable pub classify_state : W → W → W → W → TradingState
  classify_state health confidence first second =
      let worst = d.min health confidence in
      if worst <? second then halted else if worst <? first then restricted else active

  -- The circuit breaker, read after the push.
  abbrev breaker_tripped : PropertyExchange W → VolatilityWindow W → Bool
  breaker_tripped px w = is_full w && (px.cfg.volatility_threshold <? volatility w)

  abbrev pub next_state : PropertyExchange W → W → TechnicalIndicators W → TradingState
  next_state px rtpmv ind =
      if breaker_tripped px (push px.window rtpmv)
      then halted
      else classify_state (compute_health_factor ind) ind.ci px.cfg.first_threshold
          px.cfg.second_threshold

  abbrev pub next_event : PropertyExchange W → W → ℤ → Option (CircuitBreakerEvent W)
  next_event px rtpmv event_now =
      if breaker_tripped px (push px.window rtpmv) && not (is_halted px.params.trading_state)
      then some (record {
        timestamp = event_now;
        volatility = volatility (push px.window rtpmv);
        threshold = px.cfg.volatility_threshold;
        prior_state = px.params.trading_state;
      })
      else none

  abbrev pub quoted_spread : PropertyExchange W → TechnicalIndicators W → W
  quoted_spread px ind = compute_spread (compute_health_factor ind) ind.ci px.cfg.base_spread

  -- The bid and the ask, held to the band in the restricted state.
  abbrev quoted_prices : PropertyExchange W → W → TechnicalIndicators W → TradingState → W × W
  quoted_prices px rtpmv ind state =
      let (bid, ask) = compute_bid_ask rtpmv (quoted_spread px ind) in
      if is_restricted state
      then apply_restricted_band bid ask
          (if d.eq px.last_good_rtpmv (fl 0) then rtpmv else px.last_good_rtpmv)
          px.cfg.restricted_band_width
      else (bid, ask)

  -- The new exchange (whose `params` is also the first result), and the event.
  unfoldable pub update :
      PropertyExchange W
      → W
      → TechnicalIndicators W
      → ℤ
      → ℤ
      → PropertyExchange W × Option (CircuitBreakerEvent W)
  update px rtpmv ind event_now quote_now =
      let state = next_state px rtpmv ind in
      let (bid, ask) = quoted_prices px rtpmv ind state in
      (
        record px {
          params = record {
            property_id = px.cfg.property_id;
            timestamp = quote_now;
            rtpmv = rtpmv;
            bid_price = bid;
            ask_price = ask;
            spread = quoted_spread px ind;
            trading_state = state;
          };
          last_good_rtpmv = if is_active state then rtpmv else px.last_good_rtpmv;
          window = push px.window rtpmv;
        },
        next_event px rtpmv event_now,
      )

  unfoldable current_params : PropertyExchange W → ExchangeParams W
  current_params px = px.params
