-- ===== src/Exchange/Pricing/Bounds.antt =====
-- What the three functions of pricing.go guarantee.
use twinval_go_backend.Prelude.{◌≡◌, false, arith}
use twinval_go_backend.Float.{Float64, IsIeee, IsNum, IsFinite, IsUnit, fl, ◌⊕◌, ◌⊖◌, ◌⊗◌, ◌⊘◌, ◌≼◌}
use twinval_go_backend.Float.Order.{
  clamp_bounds, clamp_mono, clamp-IsUnit, unit-IsFinite, fl-IsFinite, div_nonneg,
}
use twinval_go_backend.Exchange.Pricing.{
  clamp01, compute_spread, compute_bid_ask, apply_restricted_band,
}

module _ {W : Type 0} ⦃d : Float64 W⦄ where
  -- The price limits of the restricted state.
  abbrev pub floor_price : W → W → W
  floor_price center width = center ⊗ (fl 1 ⊖ width)

  abbrev pub ceiling_price : W → W → W
  ceiling_price center width = center ⊗ (fl 1 ⊕ width)

module _ {W : Type 0} ⦃d : Float64 W⦄ (laws : IsIeee W) where
  open laws use {
    IsNum-of_le, le_trans, decimal_mono, decimal_lt, add-IsNum, add-IsNum', add_nonneg-IsNum,
    sub-IsNum, sub-IsNum', mul-IsNum, add_mono, sub_mono, mul_mono_left, mul_mono_right, mul_one,
    fl_sub, add_zero, sub_zero, is_inf_between, decimal_finite,
  }

  one : IsFinite (fl {W = W} 1)
  one = fl-IsFinite laws 1 (omega arith)

  two : IsFinite (fl {W = W} 2)
  two = fl-IsFinite laws 2 (omega arith)

  zero-IsFinite : IsFinite (fl {W = W} 0)
  zero-IsFinite = fl-IsFinite laws 0 (omega arith)

  -- `2.0 - x` for x from 0.0 to 1.0 lies from 1.0 to 2.0.
  two_minus_bounds :
      (x : W) → IsUnit x → (fl 1 ≼ fl 2 ⊖ x) × (fl 2 ⊖ x ≼ fl 2) × IsFinite (fl 2 ⊖ x)
  two_minus_bounds x u = (low, high, (result, finite))
    where
      f : IsFinite x
      f = unit-IsFinite laws x u

      result : IsNum (fl 2 ⊖ x)
      result = sub-IsNum _ _ two.0 f

      low : fl 1 ≼ fl 2 ⊖ x
      low =
          rw (fl_sub 2 1 (omega arith) (omega arith)) at
            (sub_mono (fl 2) (fl 1) (fl 2) x two.0 u.1 (sub-IsNum _ _ two.0 one) result)

      high : fl 2 ⊖ x ≼ fl 2
      high =
          rw (sub_zero (fl 2) two.0) at
            (sub_mono (fl 2) x (fl 2) (fl 0) two.0 u.0 result (sub-IsNum _ _ two.0 zero-IsFinite))

      finite : d.is_inf (fl 2 ⊖ x) ≡ false
      finite = is_inf_between _ _ _ low high one.1 two.1

  -- ComputeSpread, for a base spread that is not negative and doubles twice without overflow: the
  -- spread lies from the base spread to four times it, whatever numbers the two metrics are.
  pub compute_spread_bounds :
      (health confidence base : W)
      → IsNum health
      → IsNum confidence
      → fl 0 ≼ base
      → IsFinite base
      → IsFinite (base ⊗ fl 2)
      → (base ≼ compute_spread health confidence base)
        × (compute_spread health confidence base ≼ base ⊗ fl 2 ⊗ fl 2)
  unfolding compute_spread
  compute_spread_bounds health confidence base nh nc pos f f2 = (low, high)
    where
      h :
          (fl 1 ≼ fl 2 ⊖ clamp01 health)
          × (fl 2 ⊖ clamp01 health ≼ fl 2)
          × IsFinite (fl 2 ⊖ clamp01 health)
      h = two_minus_bounds _ (clamp-IsUnit laws health nh)

      c :
          (fl 1 ≼ fl 2 ⊖ clamp01 confidence)
          × (fl 2 ⊖ clamp01 confidence ≼ fl 2)
          × IsFinite (fl 2 ⊖ clamp01 confidence)
      c = two_minus_bounds _ (clamp-IsUnit laws confidence nc)

      first : W
      first = base ⊗ (fl 2 ⊖ clamp01 health)

      first_num : IsNum first
      first_num = mul-IsNum _ _ f h.2

      base-le-first : base ≼ first
      base-le-first =
          rw (mul_one base f.0) at (mul_mono_left base _ _ pos h.0 (mul-IsNum _ _ f one) first_num)

      first-le : first ≼ base ⊗ fl 2
      first-le = mul_mono_left base _ _ pos h.1 first_num f2.0

      first_finite : IsFinite first
      first_finite = (first_num, is_inf_between _ _ _ base-le-first first-le f.1 f2.1)

      first_nonneg : fl 0 ≼ first
      first_nonneg = le_trans _ _ _ pos base-le-first

      spread_num : IsNum (first ⊗ (fl 2 ⊖ clamp01 confidence))
      spread_num = mul-IsNum _ _ first_finite c.2

      low : base ≼ first ⊗ (fl 2 ⊖ clamp01 confidence)
      low = le_trans _ _ _ base-le-first (
          rw (mul_one first first_num) at
            (mul_mono_left first _ _ first_nonneg c.0 (mul-IsNum _ _ first_finite one) spread_num))

      high : first ⊗ (fl 2 ⊖ clamp01 confidence) ≼ base ⊗ fl 2 ⊗ fl 2
      high =
          le_trans _ _ _
            (mul_mono_left first _ _ first_nonneg c.1 spread_num (mul-IsNum _ _ first_finite two))
            (mul_mono_right (fl 2) _ _ (decimal_mono 0 20_000 (omega arith)) first-le
              (mul-IsNum _ _ first_finite two) (mul-IsNum _ _ f2 two))

  -- ComputeBidAsk, for a finite RTPMV and a spread that are not negative, when the two factors do
  -- not overflow: bid ≤ RTPMV ≤ ask.
  pub compute_bid_ask_brackets :
      (rtpmv spread : W)
      → fl 0 ≼ rtpmv
      → IsFinite rtpmv
      → fl 0 ≼ spread
      → IsFinite (fl 1 ⊖ spread ⊘ fl 2)
      → IsFinite (fl 1 ⊕ spread ⊘ fl 2)
      → ((compute_bid_ask rtpmv spread).0 ≼ rtpmv) × (rtpmv ≼ (compute_bid_ask rtpmv spread).1)
  unfolding compute_bid_ask
  compute_bid_ask_brackets r s pos f sp down up = (
    rw (mul_one r f.0) at
        (mul_mono_left r _ _ pos below (mul-IsNum _ _ f down) (mul-IsNum _ _ f one)),
    rw (mul_one r f.0) at
        (mul_mono_left r _ _ pos above (mul-IsNum _ _ f one) (mul-IsNum _ _ f up)),
  )
    where
      half_nonneg : fl 0 ≼ s ⊘ fl 2
      half_nonneg =
          div_nonneg laws s (fl 2) two (decimal_lt 0 20_000 (omega arith) (omega arith)) sp

      half_num : IsNum (s ⊘ fl 2)
      half_num = (IsNum-of_le _ _ half_nonneg).1

      below : fl 1 ⊖ s ⊘ fl 2 ≼ fl 1
      below =
          rw (sub_zero (fl 1) one.0) at
            (sub_mono _ _ _ _ one.0 half_nonneg down.0 (sub-IsNum _ _ one.0 zero-IsFinite))

      above : fl 1 ≼ fl 1 ⊕ s ⊘ fl 2
      above =
          le_trans _ _ _ (add_zero (fl 1) one.0).1
            (add_mono _ _ _ _ one.0 half_nonneg (add-IsNum _ _ one.0 zero-IsFinite) up.0)

  -- ApplyRestrictedBand, for prices that are numbers with bid ≤ ask and limits in order: both
  -- prices end inside the band, and the bid is still at most the ask.
  pub apply_restricted_band_bounds :
      (bid ask center width : W)
      → bid ≼ ask
      → floor_price center width ≼ ceiling_price center width
      → let (b, a) = apply_restricted_band bid ask center width in
        (floor_price center width ≼ b) × (b ≼ a) × (a ≼ ceiling_price center width)
  unfolding apply_restricted_band
  apply_restricted_band_bounds bid ask center width h r =
      let (nb, na) = IsNum-of_le bid ask h in
      (
        (clamp_bounds laws bid _ _ nb r).0,
        clamp_mono laws bid ask _ _ h r,
        (clamp_bounds laws ask _ _ na r).1,
      )
