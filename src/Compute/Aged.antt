-- ===== src/Compute/Aged.antt =====
-- The age factor of computeEffectiveAge (internal/compute/indicators.go) for a property without
-- maintenance data.
use twinval_go_backend.Prelude.{inl, inr, arith}
use twinval_go_backend.Float.{Float64, IsIeee, IsFinite, fl, decimal, ◌⊖◌, ◌⊗◌, ◌≼◌}
use twinval_go_backend.Float.Order.{fl-IsFinite, fl-IsNum}
use twinval_go_backend.Float.Scale.{decimal-IsFinite}

-- 0.0 or -0.0.
abbrev IsZero : {W : Type 0} ⦃d : Float64 W⦄ → W → Type 0
IsZero x = (x ≼ fl 0) × (fl 0 ≼ x)

module _ {W : Type 0} ⦃d : Float64 W⦄ (laws : IsIeee W) where
  open laws use {
    IsNum-of_le, le_trans, le_total, is_inf_between, mul-IsNum, mul_mono_right, mul_anti_right,
    zero_mul, sub-IsNum, sub_finite,
  }

  zero-IsFinite : (z : W) → IsZero z → IsFinite z
  zero-IsFinite z (p, q) =
      let f = (fl-IsFinite laws 0 (omega arith)).1 in
      ((IsNum-of_le _ _ p).0, is_inf_between _ _ _ q p f f)

  -- Zero times a finite number.
  vanishing_product : (z c : W) → IsZero z → IsFinite c → IsZero (z ⊗ c)
  vanishing_product z c (p, q) f =
      let o = fl-IsFinite laws 0 (omega arith) in
      let product = mul-IsNum z c (zero-IsFinite z (p, q)) f in
      let nothing = mul-IsNum (fl 0) c o f in
      let (low, high) = zero_mul c f in
      elim (le_total (fl 0) c o.0 f.0) [
        | inl up ↦ (
          le_trans _ _ _ (mul_mono_right c z (fl 0) up p product nothing) low,
          le_trans _ _ _ high (mul_mono_right c (fl 0) z up q nothing product),
        )
        | inr down ↦ (
          le_trans _ _ _ (mul_anti_right c (fl 0) z down q nothing product) low,
          le_trans _ _ _ high (mul_anti_right c z (fl 0) down p product nothing),
        )
      ]

  -- Without maintenance sensitivity the factor is finite, whatever the rate and the quality.
  pub insensitive_factor :
      (rate quality : W)
      → IsFinite rate
      → fl 0 ≼ quality
      → IsFinite quality
      → IsFinite (fl 1 ⊖ fl 0 ⊗ rate ⊗ (quality ⊖ decimal 5000) ⊗ fl 2)
  insensitive_factor rate quality r low q =
      let half = decimal-IsFinite laws 5000 (omega arith) in
      let shifted : IsFinite (quality ⊖ decimal 5000) = (
        sub-IsNum _ _ q.0 half,
        sub_finite _ _ low (laws.decimal_mono 0 5000 (omega arith)) q half,
      ) in
      let one = fl-IsFinite laws 1 (omega arith) in
      let z =
        vanishing_product _ (fl 2)
          (vanishing_product _ (quality ⊖ decimal 5000)
            (vanishing_product (fl 0) rate (zero_self) r) shifted)
          (fl-IsFinite laws 2 (omega arith)) in
      let f = zero-IsFinite _ z in
      (sub-IsNum _ _ one.0 f, sub_finite _ _ (laws.decimal_mono 0 10_000 (omega arith)) z.1 one f)
    where
      zero_self : IsZero (fl {W = W} 0)
      zero_self = (fl-IsNum laws 0, fl-IsNum laws 0)
