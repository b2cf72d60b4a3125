-- ===== src/Exchange/Pricing.antt =====
-- internal/exchange/pricing.go, with what the three functions guarantee.
pub mod Bounds
use twinval_go_backend.Float.{Float64, fl, ◌⊕◌, ◌⊖◌, ◌⊗◌, ◌⊘◌}
use twinval_go_backend.Float.Order.{clamp}

module _ {W : Type 0} ⦃d : Float64 W⦄ where
  abbrev pub clamp01 : W → W
  clamp01 v = clamp v (fl 0) (fl 1)

  unfoldable pub compute_spread : W → W → W → W
  compute_spread health confidence base_spread =
      let h = clamp01 health in let c = clamp01 confidence in base_spread ⊗ (fl 2 ⊖ h) ⊗ (fl 2 ⊖ c)

  unfoldable pub compute_bid_ask : W → W → W × W
  compute_bid_ask rtpmv spread =
      let half = spread ⊘ fl 2 in (rtpmv ⊗ (fl 1 ⊖ half), rtpmv ⊗ (fl 1 ⊕ half))

  unfoldable pub apply_restricted_band : W → W → W → W → W × W
  apply_restricted_band bid ask center band_width =
      let min_price = center ⊗ (fl 1 ⊖ band_width) in
      let max_price = center ⊗ (fl 1 ⊕ band_width) in
      (clamp bid min_price max_price, clamp ask min_price max_price)
