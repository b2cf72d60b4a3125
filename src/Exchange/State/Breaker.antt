-- ===== src/Exchange/State/Breaker.antt =====
-- The circuit breaker of Update against the history of calls.
use mathlib.Core.Path.{subst}
use twinval_go_backend.Prelude.{
  ℕ, suc, ◌≤◌, ◌<◌, ◌≡◌, ◌≢◌, ◌↔◌, refl, ◌∙◌, Bool, true, false, not, ◌&&◌, none, some, List, [],
  ◌∷◌, map, arith, if◌then◌else◌, length, length-map, All, get_or-All,
}
use twinval_go_backend.Float.{Float64, IsIeee, IsNum, fl, ◌≺◌}
use twinval_go_backend.Float.Order.{fl-IsNum}
use twinval_go_backend.Compute.Indicators.{compute_health_factor}
use twinval_go_backend.Exchange.Types.{
  TradingState, halted, is_halted, ExchangeConfig, CircuitBreakerEvent,
}
use twinval_go_backend.Exchange.Volatility.{push, is_full, relative_swing, capacity_or_default}
use twinval_go_backend.Exchange.Volatility.Ring.{push-Represents, is_full_iff, capacity-push}
use twinval_go_backend.Exchange.Volatility.Extremes.{IsRange, volatility_refines}
use twinval_go_backend.Exchange.State.{PropertyExchange, seeded, update, classify_state}
use twinval_go_backend.Exchange.State.History.{
  Call, Entry, step, run, newest_state, IsCurrent, run-seeded-IsCurrent,
}

module _ {W : Type 0} ⦃d : Float64 W⦄ where
  abbrev pub rtpmvs : List (Entry W) → List W
  rtpmvs = map (λ (e : Entry W). e.rtpmv)

  not_full :
      (cfg : ExchangeConfig W) (px : PropertyExchange W) (log : List (Entry W)) (v : W)
      → IsCurrent cfg px log
      → suc (length log) < capacity_or_default cfg.volatility_window_size
      → is_full (push px.window v) ≡ false
  not_full cfg px log v cur short =
      let r = push-Represents px.window (rtpmvs log) v cur.window in
      let full = is_full_iff (push px.window v) (v ∷ rtpmvs log) r in
      ground (
        arith,
        full,
        cur.capacity,
        capacity-push px.window v,
        length-map (λ (e : Entry W). e.rtpmv) log,
      )

  -- Update before the window is full, on a new exchange after any sequence of calls: no event
  -- fires, and the state is the one that classifyState gives, whatever the state was before.
  update_before_full :
      (cfg : ExchangeConfig W) (cs : List (Call W)) (c : Call W)
      → suc (length (run (seeded cfg) [] cs).1) < capacity_or_default cfg.volatility_window_size
      → let px = (run (seeded cfg) [] cs).0 in
        ((step px c).1 ≡ none)
        × ((step px c).0.params.trading_state
            ≡ classify_state
                (compute_health_factor c.indicators)
                c.indicators.ci
                cfg.first_threshold
                cfg.second_threshold)
  unfolding update
  update_before_full cfg cs c short =
      let px = (run (seeded cfg) [] cs).0 in
      let v = run-seeded-IsCurrent cfg cs in
      let e = not_full cfg px _ c.rtpmv v short in (rw e refl, rw (e, v.config) refl)

module _ {W : Type 0} ⦃d : Float64 W⦄ (laws : IsIeee W) where
  event_iff :
      (cfg : ExchangeConfig W) (px : PropertyExchange W) (log : List (Entry W)) (c : Call W)
      (held : ℕ)
      → IsCurrent cfg px log
      → capacity_or_default cfg.volatility_window_size ≡ held
      → 2 ≤ held
      → held ≤ suc (length log)
      → All (λ x. IsNum x) (c.rtpmv ∷ rtpmvs log)
      → (lo : W) × (hi : W) × IsRange (c.rtpmv ∷ rtpmvs log) held lo hi
        × (((step px c).1 ≢ none)
            ↔ ((cfg.volatility_threshold ≺ relative_swing (lo, hi)) × (newest_state log ≢ halted)))
  unfolding update
  event_iff cfg px log c held v size two long nums =
      let w = push px.window c.rtpmv in
      let history = c.rtpmv ∷ rtpmvs log in
      let r = push-Represents px.window (rtpmvs log) c.rtpmv v.window in
      let same : w.capacity ≡ held = capacity-push px.window c.rtpmv ∙ v.capacity ∙ size in
      let total : length (rtpmvs log) ≡ length log = length-map (λ (e : Entry W). e.rtpmv) log in
      let count : w.count ≡ held = omega (arith, r.count_eq) in
      let full : is_full w ≡ true = (is_full_iff w history r).1 (omega arith) in
      let (lo, hi, range, e) =
        volatility_refines laws w history r (omega arith)
          (λ k _. get_or-All (λ x. IsNum x) history k (fl 0) nums (fl-IsNum laws 0)) in
      (
        lo,
        hi,
        subst (λ n. IsRange history n lo hi) count range,
        rw (full, e, v.config, ← v.state) (fires px.params.trading_state _ _),
      )
    where
      fires :
          (s : TradingState) (b : Bool) (e : CircuitBreakerEvent W)
          → ((if b && not (is_halted s) then some e else none) ≢ none) ↔ ((b ≡ true) × (s ≢ halted))
      fires s b e = ground arith

  -- The circuit breaker of Update once the window is full, on a new exchange after any sequence of
  -- calls with RTPMVs that are numbers, for a window size of at least 2 (or the default). An event
  -- fires exactly if (max − min) / min over the newest `capacity` RTPMVs, the new one among them,
  -- is above the threshold (it counts as 0.0 where min is not positive) and the state before the
  -- call was not Halted.
  pub update_event_iff :
      (cfg : ExchangeConfig W) (cs : List (Call W)) (c : Call W)
      → 2 ≤ capacity_or_default cfg.volatility_window_size
      → capacity_or_default cfg.volatility_window_size ≤ suc (length (run (seeded cfg) [] cs).1)
      → All (λ x. IsNum x) (c.rtpmv ∷ rtpmvs (run (seeded cfg) [] cs).1)
      → let (px, log) = run (seeded cfg) [] cs in
        (lo : W) × (hi : W) × IsRange
          (c.rtpmv ∷ rtpmvs log)
          (capacity_or_default cfg.volatility_window_size)
          lo
          hi
        × (((step px c).1 ≢ none)
            ↔ ((cfg.volatility_threshold ≺ relative_swing (lo, hi)) × (newest_state log ≢ halted)))
  update_event_iff cfg cs c two long nums =
      let (px, log) = run (seeded cfg) [] cs in
      event_iff cfg px log c _ (run-seeded-IsCurrent cfg cs) refl two long nums
