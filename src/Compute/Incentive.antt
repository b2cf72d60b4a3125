-- ===== src/Compute/Incentive.antt =====
-- ComputeSHF in its flat region, and the maintenance incentive of ComputePDP.
use twinval_go_backend.Prelude.{arith, inl, inr}
use twinval_go_backend.Float.{
  Float64, IsIeee, IsNum, IsFinite, IsUnit, fl, decimal, ◌⊕◌, ◌⊖◌, ◌⊗◌, ◌⊘◌, ◌≼◌,
}
use twinval_go_backend.Float.Order.{
  clamp_mono, clamp-IsUnit, unit-IsFinite, fl-IsFinite, fl-IsNum, zero-le-one, clamp_id,
  product-IsUnit, scaled-IsFinite,
}
use twinval_go_backend.Compute.Types.{ConditionedData}
use twinval_go_backend.Compute.Configs.{ShfConfig, AllIndicatorConfigs}
use twinval_go_backend.Compute.Indicators.{
  wohler_penalty, compute_shf, condition_adjustment, compute_effective_age, compute_pdp,
}
use twinval_go_backend.Compute.Valid.{IsValid, IsClean, IsWeight}

module _ {W : Type 0} ⦃d : Float64 W⦄ (laws : IsIeee W) where
  open laws use {
    IsNum-of_le, le_trans, add-IsNum, add_nonneg-IsNum, sub-IsNum, mul-IsNum, div-IsNum, add_mono,
    sub_mono, mul_mono_left, mul_mono_right, div_mono, mul_zero, add_zero, sub_zero, le_max,
    max_cases,
  }

  -- ComputeSHF in the flat region: with both readings at or below their ceilings, and weights that
  -- are finite and not negative, the structural health is 1.0, whatever the exponent.
  compute_shf_flat :
      (x : ConditionedData W) (cfg : ShfConfig W)
      → IsWeight cfg.vibration_weight
      → IsWeight cfg.strain_weight
      → x.vibration_magnitude ≼ cfg.vibration_normal_ceiling
      → x.strain_magnitude ≼ cfg.strain_normal_ceiling
      → (compute_shf x cfg ≼ fl 1) × (fl 1 ≼ compute_shf x cfg)
  unfolding compute_shf wohler_penalty
  compute_shf_flat x cfg v s below under =
      rw (below, under, clamp_id laws combined (fl 0) (fl 1) combined_nonneg combined-le-one)
        (shape.1, shape.0)
    where
      combined : W
      combined = cfg.vibration_weight ⊗ fl 0 ⊕ cfg.strain_weight ⊗ fl 0

      zero-IsFinite : IsFinite (fl {W = W} 0)
      zero-IsFinite = fl-IsFinite laws 0 (omega arith)

      one : IsNum (fl {W = W} 1)
      one = fl-IsNum laws 1

      terms : IsNum combined
      terms = add_nonneg-IsNum _ _ (mul_zero _ v.1).1 (mul_zero _ s.1).1

      zeros : IsNum (fl {W = W} 0 ⊕ fl 0)
      zeros = add-IsNum _ _ zero-IsFinite.0 zero-IsFinite

      combined_nonneg : fl 0 ≼ combined
      combined_nonneg =
          le_trans _ _ _ (add_zero _ zero-IsFinite.0).1
            (add_mono _ _ _ _ (mul_zero _ v.1).1 (mul_zero _ s.1).1 zeros terms)

      combined-le-zero : combined ≼ fl 0
      combined-le-zero =
          le_trans _ _ _ (add_mono _ _ _ _ (mul_zero _ v.1).0 (mul_zero _ s.1).0 terms zeros)
            (add_zero _ zero-IsFinite.0).0

      combined-le-one : combined ≼ fl 1
      combined-le-one = le_trans _ _ _ combined-le-zero (zero-le-one laws)

      shape : (fl 1 ≼ fl 1 ⊖ combined) × (fl 1 ⊖ combined ≼ fl 1)
      shape =
          let f = unit-IsFinite laws combined (combined_nonneg, combined-le-one) in
          let n = sub-IsNum _ _ one f in
          let z = sub-IsNum _ _ one zero-IsFinite in
          (
            rw (sub_zero _ one) at
                (sub_mono (fl 1) (fl 0) (fl 1) combined one combined-le-zero z n),
            rw (sub_zero _ one) at (sub_mono (fl 1) combined (fl 1) (fl 0) one combined_nonneg n z),
          )

  max_mono : (c x y : W) → IsNum c → x ≼ y → d.max c x ≼ d.max c y
  max_mono c x y n h =
      let (p, q) = IsNum-of_le x y h in
      elim (max_cases c x n p) [
        | inl e ↦ rw e (le_max c y n q).0
        | inr e ↦ rw e (le_trans _ _ _ h (le_max c y n q).1)
      ]

  -- The maintenance incentive of ComputePDP. Take two sets of clean readings that differ in the
  -- condition quality only, under a valid configuration, with an age that is not negative, and the
  -- sensitivity, the reduction rate and both qualities from 0.0 to 1.0. The readings of the better
  -- quality have at least the other's PDP.
  compute_pdp_incentive :
      (x : ConditionedData W) (quality : W) (cfgs : AllIndicatorConfigs W)
      → IsValid cfgs
      → IsClean cfgs x
      → IsClean cfgs (record x { condition_quality = quality })
      → fl 0 ≼ x.chronological_age
      → IsUnit x.maintenance_sensitivity
      → IsUnit cfgs.pdp.effective_age_reduction_rate
      → IsUnit x.condition_quality
      → IsUnit quality
      → x.condition_quality ≼ quality
      → compute_pdp x cfgs.pdp ≼ compute_pdp (record x { condition_quality = quality }) cfgs.pdp
  unfolding compute_pdp compute_effective_age
  compute_pdp_incentive x quality cfgs v c c' age s r qx qy h =
      sub_mono _ _ _ _ one
        (clamp_mono laws _ _ (fl 0) (fl 1) (div_mono _ _ _ v.design_life.0 v.design_life.1 ages)
          (zero-le-one laws))
        (sub-IsNum _ _ one (unit-IsFinite laws _ (clamp-IsUnit laws _ (rate _ aged))))
        (sub-IsNum _ _ one (unit-IsFinite laws _ (clamp-IsUnit laws _ (rate _ aged'))))
    where
      one : IsNum (fl {W = W} 1)
      one = fl-IsNum laws 1

      two : IsFinite (fl {W = W} 2)
      two = fl-IsFinite laws 2 (omega arith)

      y : ConditionedData W
      y = record x { condition_quality = quality }

      rate : (a : W) → IsNum a → IsNum (a ⊘ cfgs.pdp.design_life_years)
      rate a n = div-IsNum _ _ n v.design_life.0 v.design_life.1

      aged : IsNum (d.max (fl 0) (x.chronological_age ⊗ (fl 1 ⊖ condition_adjustment x cfgs.pdp)))
      aged =
          (IsNum-of_le _ _
            (le_max (fl 0) _ (fl-IsNum laws 0) (mul-IsNum _ _ c.age c.age_factor)).0).1

      aged' : IsNum (d.max (fl 0) (x.chronological_age ⊗ (fl 1 ⊖ condition_adjustment y cfgs.pdp)))
      aged' =
          (IsNum-of_le _ _
            (le_max (fl 0) _ (fl-IsNum laws 0) (mul-IsNum _ _ c.age c'.age_factor)).0).1

      factor : W
      factor = x.maintenance_sensitivity ⊗ cfgs.pdp.effective_age_reduction_rate

      factor-IsUnit : IsUnit factor
      factor-IsUnit = product-IsUnit laws _ _ s r

      half-IsUnit : IsUnit (decimal {W = W} 5000)
      half-IsUnit =
          (laws.decimal_mono 0 5000 (omega arith), laws.decimal_mono 5000 10_000 (omega arith))

      centred : (q : W) → IsUnit q → IsFinite (q ⊖ decimal 5000)
      centred q u = (
        sub-IsNum _ _ (unit-IsFinite laws q u).0 (unit-IsFinite laws _ half-IsUnit),
        laws.sub_finite _ _ u.0 half-IsUnit.0 (unit-IsFinite laws q u)
            (unit-IsFinite laws _ half-IsUnit),
      )

      scaled : (q : W) → IsUnit q → IsFinite (factor ⊗ (q ⊖ decimal 5000))
      scaled q u = scaled-IsFinite laws factor _ factor-IsUnit (centred q u)

      rise : factor ⊗ (x.condition_quality ⊖ decimal 5000) ≼ factor ⊗ (quality ⊖ decimal 5000)
      rise =
          mul_mono_left _ _ _ factor-IsUnit.0
            (sub_mono _ _ _ _ h (unit-IsFinite laws _ half-IsUnit).0 (centred _ qx).0
              (centred _ qy).0)
            (scaled _ qx).0 (scaled _ qy).0

      adjustments : condition_adjustment x cfgs.pdp ≼ condition_adjustment y cfgs.pdp
      adjustments =
          mul_mono_right _ _ _ (laws.decimal_mono 0 20_000 (omega arith)) rise
            (mul-IsNum _ _ (scaled _ qx) two) (mul-IsNum _ _ (scaled _ qy) two)

      ages :
          d.max (fl 0) (x.chronological_age ⊗ (fl 1 ⊖ condition_adjustment y cfgs.pdp))
          ≼ d.max (fl 0) (x.chronological_age ⊗ (fl 1 ⊖ condition_adjustment x cfgs.pdp))
      ages = max_mono _ _ _ (fl-IsNum laws 0) (
          mul_mono_left _ _ _ age (sub_mono _ _ _ _ one adjustments c'.age_factor.0 c.age_factor.0)
            (mul-IsNum _ _ c.age c'.age_factor) (mul-IsNum _ _ c.age c.age_factor))
