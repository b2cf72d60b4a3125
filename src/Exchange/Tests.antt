-- ===== src/Exchange/Tests.antt =====
-- The theorems on internal/exchange at concrete calls, over whole ten-thousandths.
use mathlib.Core.Bool.{false≢true}
use twinval_go_backend.Prelude.{
  ℕ, zero, suc, get_or, ◌≡◌, ◌≢◌, ◌↔◌, ◌⊎◌, refl, arith, none, List, [], ◌∷◌, ◌<◌,
}
use twinval_go_backend.Prelude.Int.{pos}
use twinval_go_backend.Float.{fl, decimal, IsNum, ◌≼◌, ◌≺◌, ◌⊗◌}
use twinval_go_backend.Float.Fixed.{Fixed, nan, fixed_float}
use twinval_go_backend.Float.Fixed.Laws.{Fixed-IsIeee}
use twinval_go_backend.Compute.Indicators.{compute_health_factor}
use twinval_go_backend.Compute.Tests.{fair, fair-AreUnit}
use twinval_go_backend.Exchange.Types.{ExchangeConfig, default_exchange_config, active, halted}
use twinval_go_backend.Exchange.Pricing.{compute_spread}
use twinval_go_backend.Exchange.Volatility.{
  VolatilityWindow, new_volatility_window, push, volatility, relative_swing, capacity_or_default,
}
use twinval_go_backend.Exchange.Volatility.Ring.{
  Represents, new_volatility_window-Represents, push-Represents,
}
use twinval_go_backend.Exchange.Volatility.Extremes.{IsRange, volatility_refines}
use twinval_go_backend.Exchange.State.{seeded, update, classify_state}
use twinval_go_backend.Exchange.State.Classify.{classify_state_bands, classify_state_nan}
use twinval_go_backend.Exchange.State.History.{
  Call, step, run, newest_state, IsCurrent, run-seeded-IsCurrent,
}
use twinval_go_backend.Exchange.State.Breaker.{rtpmvs, update_event_iff}
use twinval_go_backend.Exchange.State.Quotes.{IsQuotable, update_quote}

-- A window of three values.
abbrev config : ExchangeConfig Fixed
config = record default_exchange_config { volatility_window_size = pos 3 }

abbrev call_at : Fixed → Call Fixed
call_at v = record { rtpmv = v; indicators = fair; event_now = pos 5; quote_now = pos 6 }

abbrev two_calls : List (Call Fixed)
two_calls = call_at (fl 100) ∷ call_at (fl 110) ∷ []

abbrev three : VolatilityWindow Fixed
three = new_volatility_window (pos 3)

abbrev filled : VolatilityWindow Fixed
filled = push (push three (fl 100)) (fl 110)

filled-Represents : Represents filled (fl 110 ∷ fl 100 ∷ [])
filled-Represents =
    push-Represents (push three (fl 100)) (fl 100 ∷ []) (fl 110)
      (push-Represents three [] (fl 100) (new_volatility_window-Represents (pos 3)))

fair-IsQuotable : IsQuotable (seeded config) (fl 100) fair
unfolding compute_spread compute_health_factor
fair-IsQuotable = record {
  indicators = fair-AreUnit;
  rtpmv_nonneg = refl;
  rtpmv_finite = (refl, refl);
  base_nonneg = refl;
  base_finite = (refl, refl);
  base_doubled = (refl, refl);
  factor_down = (refl, refl);
  factor_up = (refl, refl);
  band = refl;
}

run-seeded_example : let (px, log) = run (seeded config) [] two_calls in IsCurrent config px log
run-seeded_example = run-seeded-IsCurrent config two_calls

update_event_example :
    let (px, log) = run (seeded config) [] two_calls in
    (lo : Fixed) × (hi : Fixed) × IsRange
      (fl 150 ∷ rtpmvs log)
      (capacity_or_default config.volatility_window_size)
      lo
      hi
    × (((step px (call_at (fl 150))).1 ≢ none)
        ↔ ((config.volatility_threshold ≺ relative_swing (lo, hi)) × (newest_state log ≢ halted)))
unfolding run new_volatility_window
update_event_example =
    update_event_iff Fixed-IsIeee config two_calls (call_at (fl 150)) (omega arith) (omega arith)
      (refl, (refl, (refl, tt)))

update_quote_example :
    let params = (update (seeded config) (fl 100) fair (pos 5) (pos 6)).0.params in
    (config.base_spread ≼ params.spread)
    × (params.spread ≼ config.base_spread ⊗ fl 2 ⊗ fl 2)
    × (params.bid_price ≼ params.ask_price)
update_quote_example =
    update_quote Fixed-IsIeee (seeded config) (fl 100) fair (pos 5) (pos 6) fair-IsQuotable

filled-IsNum : (k : ℕ) → k < 2 → IsNum (get_or (fl 110 ∷ fl 100 ∷ []) k (fl {W = Fixed} 0))
filled-IsNum zero h = refl
filled-IsNum (suc zero) h = refl
filled-IsNum (suc (suc k)) h = refl

volatility_example :
    (lo : Fixed) × (hi : Fixed) × IsRange (fl 110 ∷ fl 100 ∷ []) filled.count lo hi
    × (volatility filled ≡ relative_swing (lo, hi))
unfolding push new_volatility_window
volatility_example =
    volatility_refines Fixed-IsIeee filled (fl 110 ∷ fl 100 ∷ []) filled-Represents (omega arith)
      filled-IsNum

classify_state_bands_example :
    ((classify_state {W = Fixed} (decimal 5000) (decimal 9000) (decimal 6000) (decimal 3500)
        ≡ halted)
      ↔ ((decimal {W = Fixed} 5000 ≺ decimal 3500) ⊎ (decimal {W = Fixed} 9000 ≺ decimal 3500)))
    × ((classify_state {W = Fixed} (decimal 5000) (decimal 9000) (decimal 6000) (decimal 3500)
          ≡ active)
        ↔ (¬ (
            (decimal {W = Fixed} 5000 ≺ decimal 6000) ⊎ (decimal {W = Fixed} 9000 ≺ decimal 6000))))
classify_state_bands_example =
    classify_state_bands Fixed-IsIeee (decimal 5000) (decimal 9000) (decimal 6000) (decimal 3500)
      refl refl refl

classify_state_nan_example :
    classify_state nan (decimal 9000) (decimal 6000) (decimal 3500) ≡ active
classify_state_nan_example =
    classify_state_nan Fixed-IsIeee nan (decimal 9000) (decimal 6000) (decimal 3500)
      (λ e. false≢true e) (refl, refl)
