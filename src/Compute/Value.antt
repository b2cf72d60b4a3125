-- ===== src/Compute/Value.antt =====
-- The Real-Time Property Market Value: where it lies, and how it follows the Health Factor.
use twinval_go_backend.Prelude.{arith}
use twinval_go_backend.Float.{Float64, IsIeee, IsNum, IsFinite, IsUnit, fl, ◌⊕◌, ◌⊖◌, ◌⊗◌, ◌≼◌}
use twinval_go_backend.Float.Order.{
  clamp_mono, complement-IsUnit, product-IsUnit, unit-IsFinite, fl-IsFinite, fl-IsNum, zero-le-one,
}
use twinval_go_backend.Compute.Types.{TechnicalIndicators, BaselineMarketValue}
use twinval_go_backend.Compute.Indicators.{compute_health_factor, compute_rtpmv}
use twinval_go_backend.Compute.Valid.{AreUnit}

module _ {W : Type 0} ⦃d : Float64 W⦄ where
  -- Finite land and structure values, the structure's not negative, whose sum is finite.
  pub record IsAssessed (b : BaselineMarketValue W) : Type 0 where
    pub land : IsFinite b.land_value
    pub structure : IsFinite b.structure_value
    pub structure_nonneg : fl 0 ≼ b.structure_value

  -- `j` is as good as `i` in every indicator, or better: less stress, and more of the others.
  pub record Improves (i j : TechnicalIndicators W) : Type 0 where
    pub shf : i.shf ≼ j.shf
    pub esf : i.esf ≼ j.esf
    pub uss : j.uss ≼ i.uss
    pub pdp : i.pdp ≼ j.pdp
    pub ci : i.ci ≼ j.ci

module _ {W : Type 0} ⦃d : Float64 W⦄ (laws : IsIeee W) where
  open laws use {
    IsNum-of_le, le_trans, add-IsNum, sub-IsNum, mul-IsNum, add_mono, sub_mono, mul_mono_left,
    mul_mono_right, mul_one, mul_zero, add_zero,
  }

  structure-IsNum :
      (b : BaselineMarketValue W) (hf : W)
      → IsAssessed b
      → IsUnit hf
      → IsNum (b.structure_value ⊗ hf)
  structure-IsNum b hf a u = mul-IsNum _ _ a.structure (unit-IsFinite laws hf u)

  -- ComputeRTPMV on finite baseline values, the structure's not negative, and a Health Factor from
  -- 0.0 to 1.0: the value is at least the land value, and at most land plus structure.
  pub compute_rtpmv_bounds :
      (b : BaselineMarketValue W) (hf : W)
      → IsAssessed b
      → IsUnit hf
      → (b.land_value ≼ compute_rtpmv b hf)
        × (compute_rtpmv b hf ≼ b.land_value ⊕ b.structure_value)
  unfolding compute_rtpmv
  compute_rtpmv_bounds b hf a u = (low, high)
    where
      zero-IsFinite : IsFinite (fl {W = W} 0)
      zero-IsFinite = fl-IsFinite laws 0 (omega arith)

      one : IsFinite (fl {W = W} 1)
      one = fl-IsFinite laws 1 (omega arith)

      worth : IsNum (b.structure_value ⊗ hf)
      worth = structure-IsNum b hf a u

      worth_nonneg : fl 0 ≼ b.structure_value ⊗ hf
      worth_nonneg = le_trans _ _ _ (mul_zero _ a.structure).1 (
          mul_mono_left _ (fl 0) hf a.structure_nonneg u.0 (mul-IsNum _ _ a.structure zero-IsFinite)
            worth)

      worth-le : b.structure_value ⊗ hf ≼ b.structure_value
      worth-le =
          rw (mul_one _ a.structure.0) at
            (mul_mono_left _ hf (fl 1) a.structure_nonneg u.1 worth (mul-IsNum _ _ a.structure one))

      sum_num : IsNum (b.land_value ⊕ b.structure_value ⊗ hf)
      sum_num = laws.add-IsNum' _ _ a.land worth

      low : b.land_value ≼ b.land_value ⊕ b.structure_value ⊗ hf
      low = le_trans _ _ _ (add_zero _ a.land.0).1 (
          add_mono _ (fl 0) _ _ a.land.0 worth_nonneg (add-IsNum _ _ a.land.0 zero-IsFinite)
            sum_num)

      high : b.land_value ⊕ b.structure_value ⊗ hf ≼ b.land_value ⊕ b.structure_value
      high = add_mono _ _ _ _ a.land.0 worth-le sum_num (add-IsNum _ _ a.land.0 a.structure)

  compute_rtpmv_mono :
      (b : BaselineMarketValue W) (h k : W)
      → IsAssessed b
      → IsUnit h
      → IsUnit k
      → h ≼ k
      → compute_rtpmv b h ≼ compute_rtpmv b k
  unfolding compute_rtpmv
  compute_rtpmv_mono b h k a u v le =
      let p = structure-IsNum b h a u in
      let q = structure-IsNum b k a v in
      add_mono _ _ _ _ a.land.0 (mul_mono_left _ h k a.structure_nonneg le p q)
        (laws.add-IsNum' _ _ a.land p) (laws.add-IsNum' _ _ a.land q)

  -- Products of the unit interval grow with their factors.
  product_mono :
      (x y x' y' : W)
      → IsUnit x
      → IsUnit y
      → IsUnit x'
      → IsUnit y'
      → x ≼ x'
      → y ≼ y'
      → x ⊗ y ≼ x' ⊗ y'
  product_mono x y x' y' ux uy ux' uy' h k =
      let fx = unit-IsFinite laws x ux in
      let fy = unit-IsFinite laws y uy in
      let fx' = unit-IsFinite laws x' ux' in
      let fy' = unit-IsFinite laws y' uy' in
      le_trans _ _ _ (mul_mono_right y x x' uy.0 h (mul-IsNum _ _ fx fy) (mul-IsNum _ _ fx' fy))
        (mul_mono_left x' y y' ux'.0 k (mul-IsNum _ _ fx' fy) (mul-IsNum _ _ fx' fy'))

  complement_anti : (x y : W) → IsUnit x → IsUnit y → x ≼ y → fl 1 ⊖ y ≼ fl 1 ⊖ x
  complement_anti x y u v h =
      let one = fl-IsNum laws 1 in
      sub_mono _ _ _ _ one h (sub-IsNum _ _ one (unit-IsFinite laws y v))
        (sub-IsNum _ _ one (unit-IsFinite laws x u))

  -- ComputeHealthFactor follows the indicators: where no indicator gets worse (and the usage
  -- stress does not rise), all being from 0.0 to 1.0, the Health Factor does not fall.
  pub compute_health_factor_mono :
      (i j : TechnicalIndicators W)
      → AreUnit i
      → AreUnit j
      → Improves i j
      → compute_health_factor i ≼ compute_health_factor j
  unfolding compute_health_factor
  compute_health_factor_mono i j (s, e, u, p, c) (s', e', u', p', c') h =
      let k = complement-IsUnit laws i.uss u in
      let k' = complement-IsUnit laws j.uss u' in
      let se = product-IsUnit laws i.shf i.esf s e in
      let se' = product-IsUnit laws j.shf j.esf s' e' in
      let sek = product-IsUnit laws _ _ se k in
      let sek' = product-IsUnit laws _ _ se' k' in
      let sekp = product-IsUnit laws _ _ sek p in
      let sekp' = product-IsUnit laws _ _ sek' p' in
      clamp_mono laws _ _ (fl 0) (fl 1)
        (product_mono _ _ _ _ sekp c sekp' c'
          (product_mono _ _ _ _ sek p sek' p'
            (product_mono _ _ _ _ se k se' k' (product_mono _ _ _ _ s e s' e' h.shf h.esf)
              (complement_anti j.uss i.uss u' u h.uss))
            h.pdp)
          h.ci)
        (zero-le-one laws)
