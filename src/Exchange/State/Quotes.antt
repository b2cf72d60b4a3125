-- ===== src/Exchange/State/Quotes.antt =====
-- The quotes of Update.
use twinval_go_backend.Prelude.{Bool, true, false, if◌then◌else◌}
use twinval_go_backend.Prelude.Int.{ℤ}
use twinval_go_backend.Float.{Float64, IsIeee, IsFinite, fl, ◌⊕◌, ◌⊖◌, ◌⊗◌, ◌⊘◌, ◌≼◌}
use twinval_go_backend.Compute.Types.{TechnicalIndicators}
use twinval_go_backend.Compute.Indicators.{compute_health_factor}
use twinval_go_backend.Compute.Bounds.{compute_health_factor-IsUnit}
use twinval_go_backend.Compute.Valid.{AreUnit}
use twinval_go_backend.Exchange.Types.{is_restricted}
use twinval_go_backend.Exchange.Pricing.{compute_bid_ask, apply_restricted_band}
use twinval_go_backend.Exchange.Pricing.Bounds.{
  compute_spread_bounds, compute_bid_ask_brackets, floor_price, ceiling_price,
  apply_restricted_band_bounds,
}
use twinval_go_backend.Exchange.State.{PropertyExchange, update, next_state, quoted_spread}

module _ {W : Type 0} ⦃d : Float64 W⦄ where
  -- The centre of the restricted band.
  abbrev band_center : PropertyExchange W → W → W
  band_center px rtpmv = if d.eq px.last_good_rtpmv (fl 0) then rtpmv else px.last_good_rtpmv

  -- A quote for which nothing overflows: a finite RTPMV and base spread that are not negative, and
  -- a band whose limits are in order.
  pub record IsQuotable (px : PropertyExchange W) (rtpmv : W) (ind : TechnicalIndicators W)
      : Type 0 where
    pub indicators : AreUnit ind
    pub rtpmv_nonneg : fl 0 ≼ rtpmv
    pub rtpmv_finite : IsFinite rtpmv
    pub base_nonneg : fl 0 ≼ px.cfg.base_spread
    pub base_finite : IsFinite px.cfg.base_spread
    pub base_doubled : IsFinite (px.cfg.base_spread ⊗ fl 2)
    pub factor_down : IsFinite (fl 1 ⊖ quoted_spread px ind ⊘ fl 2)
    pub factor_up : IsFinite (fl 1 ⊕ quoted_spread px ind ⊘ fl 2)
    pub band :
        floor_price (band_center px rtpmv) px.cfg.restricted_band_width
        ≼ ceiling_price (band_center px rtpmv) px.cfg.restricted_band_width

module _ {W : Type 0} ⦃d : Float64 W⦄ (laws : IsIeee W) where
  open laws use {IsNum-of_le, le_trans}

  -- The quote of Update for which nothing overflows, from any state to any state: the spread lies
  -- from the base spread to four times it, and the bid is at most the ask.
  pub update_quote :
      (px : PropertyExchange W) (rtpmv : W) (ind : TechnicalIndicators W) (event_now quote_now : ℤ)
      → IsQuotable px rtpmv ind
      → let params = (update px rtpmv ind event_now quote_now).0.params in
        (px.cfg.base_spread ≼ params.spread)
        × (params.spread ≼ px.cfg.base_spread ⊗ fl 2 ⊗ fl 2)
        × (params.bid_price ≼ params.ask_price)
  unfolding update
  update_quote px rtpmv ind event_now quote_now q =
      (spread.0, spread.1, ordered (is_restricted (next_state px rtpmv ind)))
    where
      health : W
      health = compute_health_factor ind

      spread :
          (px.cfg.base_spread ≼ quoted_spread px ind)
          × (quoted_spread px ind ≼ px.cfg.base_spread ⊗ fl 2 ⊗ fl 2)
      spread =
          compute_spread_bounds laws health ind.ci px.cfg.base_spread
            (IsNum-of_le _ _ (compute_health_factor-IsUnit laws ind q.indicators).0.1).0
            (IsNum-of_le _ _ q.indicators.4.1).0 q.base_nonneg q.base_finite q.base_doubled

      around :
          ((compute_bid_ask rtpmv (quoted_spread px ind)).0 ≼ rtpmv)
          × (rtpmv ≼ (compute_bid_ask rtpmv (quoted_spread px ind)).1)
      around =
          compute_bid_ask_brackets laws rtpmv (quoted_spread px ind) q.rtpmv_nonneg q.rtpmv_finite
            (le_trans _ _ _ q.base_nonneg spread.0) q.factor_down q.factor_up

      ordered :
          (r : Bool)
          → let (bid, ask) = compute_bid_ask rtpmv (quoted_spread px ind) in
            let prices =
              (if r
                then apply_restricted_band bid ask
                    (band_center px rtpmv)
                    px.cfg.restricted_band_width
                else (bid, ask)) in
            prices.0 ≼ prices.1
      ordered true =
          (apply_restricted_band_bounds laws _ _ _ _ (le_trans _ _ _ around.0 around.1) q.band).1
      ordered false = le_trans _ _ _ around.0 around.1
