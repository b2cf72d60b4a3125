-- ===== src/Exchange/State/History.antt =====
-- Update over a sequence of calls: what the exchange remembers, and when events fire.
use twinval_go_backend.Prelude.{
  zero, suc, ◌≡◌, ◌≢◌, ◌↔◌, refl, ap, Bool, true, not, ◌&&◌, Option, none, some, List, [], ◌∷◌, map,
  arith, if◌then◌else◌,
}
use twinval_go_backend.Prelude.Int.{ℤ, pos, negsuc}
use twinval_go_backend.Float.{Float64, fl, ◌≺◌}
use twinval_go_backend.Compute.Types.{TechnicalIndicators}
use twinval_go_backend.Exchange.Types.{
  TradingState, active, halted, is_active, is_halted, ExchangeConfig, CircuitBreakerEvent,
}
use twinval_go_backend.Exchange.Volatility.{
  VolatilityWindow, push, is_full, volatility, capacity_or_default, new_volatility_window,
}
use twinval_go_backend.Exchange.Volatility.Ring.{
  Represents, new_volatility_window-Represents, push-Represents,
}
use twinval_go_backend.Exchange.State.{PropertyExchange, seeded, update}

-- One call of Update, with the two readings of the clock.
pub record Call (W : Type 0) : Type 0 where
  pub rtpmv : W
  pub indicators : TechnicalIndicators W
  pub event_now : ℤ
  pub quote_now : ℤ

-- What a client sees of one call: the RTPMV it gave, the state of the params, and the event.
pub record Entry (W : Type 0) : Type 0 where
  pub rtpmv : W
  pub state : TradingState
  pub event : Option (CircuitBreakerEvent W)

same_capacity :
    (size : ℤ) → capacity_or_default (pos (capacity_or_default size)) ≡ capacity_or_default size
same_capacity (pos zero) = refl
same_capacity (pos (suc n)) = refl
same_capacity (negsuc n) = refl

module _ {W : Type 0} ⦃d : Float64 W⦄ where
  abbrev pub step :
      PropertyExchange W → Call W → PropertyExchange W × Option (CircuitBreakerEvent W)
  step px c = update px c.rtpmv c.indicators c.event_now c.quote_now

  abbrev pub entry : PropertyExchange W → Call W → Entry W
  entry px c = record {
    rtpmv = c.rtpmv;
    state = (step px c).0.params.trading_state;
    event = (step px c).1;
  }

  -- The exchange after the calls, and the log, newest first.
  unfoldable pub run :
      PropertyExchange W → List (Entry W) → List (Call W) → PropertyExchange W × List (Entry W)
  run px log [] = (px, log)
  run px log (c ∷ cs) = run (step px c).0 (entry px c ∷ log) cs

  -- The RTPMV of the newest call that ended in the Active state.
  abbrev last_active : List (Entry W) → W
  last_active [] = fl 0
  last_active (e ∷ log) = if is_active e.state then e.rtpmv else last_active log

  abbrev pub newest_state : List (Entry W) → TradingState
  newest_state [] = active
  newest_state (e ∷ log) = e.state

  -- The window after the RTPMVs of a log, oldest first.
  unfoldable pub window_after : ExchangeConfig W → List (Entry W) → VolatilityWindow W
  window_after cfg [] = (seeded cfg).window
  window_after cfg (e ∷ log) = push (window_after cfg log) e.rtpmv

  -- The window is full and its volatility is above the threshold.
  abbrev pub Trips : ExchangeConfig W → List (Entry W) → Type 0
  Trips cfg log =
      (is_full (window_after cfg log) ≡ true)
      × (cfg.volatility_threshold ≺ volatility (window_after cfg log))

  -- A call returned an event exactly if its window tripped and the call was made outside of Halted,
  -- and every call whose window tripped ended in Halted.
  abbrev pub AreTransitions : ExchangeConfig W → List (Entry W) → Type 0
  AreTransitions cfg [] = Unit
  AreTransitions cfg (e ∷ log) =
      (((e.event ≢ none) ↔ (Trips cfg (e ∷ log) × (newest_state log ≢ halted)))
        × (Trips cfg (e ∷ log) → e.state ≡ halted))
      × AreTransitions cfg log

  pub record IsCurrent (cfg : ExchangeConfig W) (px : PropertyExchange W) (log : List (Entry W))
      : Type 0 where
    pub capacity : px.window.capacity ≡ capacity_or_default cfg.volatility_window_size
    pub config : px.cfg ≡ (seeded cfg).cfg
    pub same_window : px.window ≡ window_after cfg log
    pub window : Represents px.window (map (λ (e : Entry W). e.rtpmv) log)
    pub last_good : px.last_good_rtpmv ≡ last_active log
    pub state : px.params.trading_state ≡ newest_state log
    pub transitions : AreTransitions cfg log

  seeded-IsCurrent : (cfg : ExchangeConfig W) → IsCurrent cfg (seeded cfg) []
  unfolding new_volatility_window window_after
  seeded-IsCurrent cfg = record {
    capacity = same_capacity cfg.volatility_window_size;
    config = refl;
    same_window = refl;
    window =
        new_volatility_window-Represents (pos (capacity_or_default cfg.volatility_window_size));
    last_good = refl;
    state = refl;
    transitions = tt;
  }

  transition :
      (px : PropertyExchange W) (c : Call W) (w : VolatilityWindow W) (threshold : W)
      (s : TradingState)
      → push px.window c.rtpmv ≡ w
      → px.cfg.volatility_threshold ≡ threshold
      → px.params.trading_state ≡ s
      → (((entry px c).event ≢ none)
          ↔ (((is_full w ≡ true) × (threshold ≺ volatility w)) × (s ≢ halted)))
        × ((is_full w ≡ true) × (threshold ≺ volatility w) → (entry px c).state ≡ halted)
  unfolding update
  transition px c w threshold s e f g =
      rw (← e, ← f, ← g)
        (fires px.params.trading_state (is_full (push px.window c.rtpmv)) _ _, ends _ _ _)
    where
      fires :
          (s : TradingState) (full swings : Bool) (e : CircuitBreakerEvent W)
          → ((if full && swings && not (is_halted s) then some e else none) ≢ none)
            ↔ (((full ≡ true) × (swings ≡ true)) × (s ≢ halted))
      fires s full swings e = ground arith

      ends :
          (full swings : Bool) (s : TradingState)
          → (full ≡ true) × (swings ≡ true)
          → (if full && swings then halted else s) ≡ halted
      ends full swings s h = ground arith

  step-IsCurrent :
      (cfg : ExchangeConfig W) (px : PropertyExchange W) (log : List (Entry W)) (c : Call W)
      → IsCurrent cfg px log
      → IsCurrent cfg (step px c).0 (entry px c ∷ log)
  unfolding update push window_after
  step-IsCurrent cfg px log c v = record {
    capacity = v.capacity;
    config = v.config;
    same_window = ap (λ w. push w c.rtpmv) v.same_window;
    window = push-Represents px.window _ c.rtpmv v.window;
    last_good = rw v.last_good;
    state = refl;
    transitions = (
      transition px c (window_after cfg (entry px c ∷ log)) cfg.volatility_threshold
          (newest_state log) (ap (λ w. push w c.rtpmv) v.same_window)
          (ap (λ (g : ExchangeConfig W). g.volatility_threshold) v.config) v.state,
      v.transitions,
    );
  }

  run-IsCurrent :
      (cfg : ExchangeConfig W) (px : PropertyExchange W) (log : List (Entry W)) (cs : List (Call W))
      → IsCurrent cfg px log
      → let (px', log') = run px log cs in IsCurrent cfg px' log'
  unfolding run
  run-IsCurrent cfg px log [] v = v
  run-IsCurrent cfg px log (c ∷ cs) v =
      run-IsCurrent cfg (step px c).0 (entry px c ∷ log) cs (step-IsCurrent cfg px log c v)

  -- After any sequence of Update calls on a new exchange: the window holds the RTPMVs of the calls,
  -- the last good RTPMV is that of the newest call that ended Active (0.0 if there is none), the
  -- current state is that of the newest call, and a call returned an event exactly if the window
  -- after it was full with a volatility above the threshold, and the state before it was not
  -- Halted; every call that left the window so ended in Halted.
  pub run-seeded-IsCurrent :
      (cfg : ExchangeConfig W) (cs : List (Call W))
      → let (px, log) = run (seeded cfg) [] cs in IsCurrent cfg px log
  run-seeded-IsCurrent cfg cs = run-IsCurrent cfg (seeded cfg) [] cs (seeded-IsCurrent cfg)
