-- ===== src/Compute/Bounds.antt =====
-- Every indicator lies in the unit interval, if the readings are finite and nothing overflows.
use twinval_go_backend.Compute.Valid.{IsWeight, AreUnit, IsPositive, IsRange, IsValid, IsClean}
use twinval_go_backend.Prelude.{◌≡◌, arith, inl, inr, Bool-cases, ◌&&◌}
use twinval_go_backend.Float.{
  Float64, IsIeee, IsNum, IsFinite, IsUnit, fl, ◌⊕◌, ◌⊖◌, ◌⊗◌, ◌⊘◌, ◌≼◌, ◌≤?◌,
}
use twinval_go_backend.Float.Order.{
  clamp, clamp-IsUnit, complement-IsUnit, product-IsUnit, weighted_nonneg, add_nonneg, fl-IsFinite,
  fl-IsNum, zero-le-one, le_of_not_le, div_nonneg, sub_nonneg, ratio-IsUnit, one_add_pos,
  le-one_add, clamp_id,
}
use twinval_go_backend.Compute.Types.{ConditionedData, TechnicalIndicators}
use twinval_go_backend.Compute.Configs.{AllIndicatorConfigs}
use twinval_go_backend.Compute.Indicators.{
  wohler_power, wohler_penalty, compute_shf, range_score, compute_esf, compute_uss,
  compute_effective_age, compute_pdp, compute_ci, compute_health_factor, compute_all_indicators,
}

module _ {W : Type 0} ⦃d : Float64 W⦄ (laws : IsIeee W) where
  open laws use {
    IsNum-of_le, IsNum-of_lt, le_trans, le_total, lt-eq-not-le, is_inf_between, add-IsNum,
    add_nonneg-IsNum, sub-IsNum, sub-IsNum', mul-IsNum, div-IsNum, add_mono, sub_mono, div_mono,
    zero_add, zero_div, div_self, sub_self, abs_nonneg, pow_nonneg, le_max,
  }

  -- The penalty of one reading.
  wohler_penalty-IsUnit :
      (r c e : W)
      → IsFinite r
      → IsPositive c
      → fl 0 ≼ e
      → IsFinite (fl 1 ⊕ wohler_power r c e)
      → IsUnit (wohler_penalty r c e)
  unfolding wohler_penalty
  wohler_penalty-IsUnit r c e fr (fc, pc) fe fs = elim (Bool-cases (r ≤? c)) [
    | inl below ↦ rw below (fl-IsNum laws 0, zero-le-one laws)
    | inr above ↦ rw above (quotient (power_nonneg (le_of_not_le laws r c fr.0 fc.0 above)))
  ]
    where
      power_nonneg : c ≼ r → fl 0 ≼ wohler_power r c e
      power_nonneg h =
          pow_nonneg _ e (div_nonneg laws (r ⊖ c) c fc pc (sub_nonneg laws c r fc fr.0 h)) fe

      quotient :
          fl 0 ≼ wohler_power r c e → IsUnit (wohler_power r c e ⊘ (fl 1 ⊕ wohler_power r c e))
      quotient p = ratio-IsUnit laws _ _ fs (one_add_pos laws _ p) p (le-one_add laws _ p)

  -- A weighted sum of values of the unit interval is a number.
  weighted_sum :
      (v x w y : W) → IsWeight v → IsUnit x → IsWeight w → IsUnit y → fl 0 ≼ v ⊗ x ⊕ w ⊗ y
  weighted_sum v x w y (pv, fv) ux (pw, fw) uy =
      add_nonneg laws _ _ (weighted_nonneg laws v x pv fv ux) (weighted_nonneg laws w y pw fw uy)

  IsNum-of_nonneg : (x : W) → fl 0 ≼ x → IsNum x
  IsNum-of_nonneg x h = (IsNum-of_le _ _ h).1

  -- ComputeSHF stays in the unit interval.
  compute_shf-IsUnit :
      (x : ConditionedData W) (cfgs : AllIndicatorConfigs W)
      → IsValid cfgs
      → IsClean cfgs x
      → IsUnit (compute_shf x cfgs.shf)
  unfolding compute_shf
  compute_shf-IsUnit x cfgs v c = complement-IsUnit laws _ (
      clamp-IsUnit laws _ (
        IsNum-of_nonneg _ (
          weighted_sum _ _ _ _ v.shf.vibration_weight
            (wohler_penalty-IsUnit _ _ _ c.vibration v.shf.vibration_ceiling v.shf.exponent
              c.vibration_power)
            v.shf.strain_weight
            (wohler_penalty-IsUnit _ _ _ c.strain v.shf.strain_ceiling v.shf.exponent
              c.strain_power))))

  range_score-IsUnit : (x lo hi : W) → IsFinite x → IsRange lo hi → IsUnit (range_score x lo hi)
  unfolding range_score
  range_score-IsUnit x lo hi f (mid, (half, positive)) =
      elim (Bool-cases ((lo ≤? x) && (x ≤? hi))) [
        | inl inside ↦ rw inside (zero-le-one laws, fl-IsNum laws 1)
        | inr outside ↦ rw outside (
            clamp-IsUnit laws _ (
              sub-IsNum' _ _ (fl-IsFinite laws 1 (omega arith)) (
                div-IsNum _ _
                  (sub-IsNum _ _ (IsNum-of_nonneg _ (abs_nonneg _ (sub-IsNum _ _ f.0 mid))) half)
                  half positive)))
      ]

  -- The score that falls from 1.0 at the limit to 0.0 at twice the limit.
  excess_score-IsUnit :
      (x limit : W)
      → IsFinite x
      → IsPositive limit
      → IsUnit (fl 1 ⊖ clamp (x ⊘ limit ⊖ fl 1) (fl 0) (fl 1))
  excess_score-IsUnit x limit f (fl', p) = complement-IsUnit laws _ (
      clamp-IsUnit laws _
        (sub-IsNum _ _ (div-IsNum x limit f.0 fl' p) (fl-IsFinite laws 1 (omega arith))))

  compute_esf-IsUnit :
      (x : ConditionedData W) (cfgs : AllIndicatorConfigs W)
      → IsValid cfgs
      → IsClean cfgs x
      → IsUnit (compute_esf x cfgs.esf)
  unfolding compute_esf
  compute_esf-IsUnit x cfgs v c = clamp-IsUnit laws _ (
      IsNum-of_nonneg _ (
        add_nonneg laws _ _
          (weighted_sum _ _ _ _ v.esf.temp_weight
            (range_score-IsUnit _ _ _ c.temperature v.esf.temp_range) v.esf.humidity_weight
            (range_score-IsUnit _ _ _ c.humidity v.esf.humidity_range))
          (weighted_nonneg laws _ _ v.esf.air_qual_weight.0 v.esf.air_qual_weight.1
            (excess_score-IsUnit _ _ c.air_quality v.esf.safe_level))))

  compute_uss-IsUnit :
      (x : ConditionedData W) (cfgs : AllIndicatorConfigs W)
      → IsValid cfgs
      → IsClean cfgs x
      → IsUnit (compute_uss x cfgs.uss)
  unfolding compute_uss
  compute_uss-IsUnit x cfgs v c = clamp-IsUnit laws _ (
      IsNum-of_nonneg _ (
        add_nonneg laws _ _
          (weighted_sum _ _ _ _ v.uss.occupancy_weight (clamp-IsUnit laws _ c.occupancy)
            v.uss.electrical_weight (clamp-IsUnit laws _ c.electrical))
          (weighted_nonneg laws _ _ v.uss.water_weight.0 v.uss.water_weight.1
            (clamp-IsUnit laws _ c.water))))

  effective_age-IsNum :
      (x : ConditionedData W) (cfgs : AllIndicatorConfigs W)
      → IsClean cfgs x
      → IsNum (compute_effective_age x cfgs.pdp)
  unfolding compute_effective_age
  effective_age-IsNum x cfgs c =
      IsNum-of_nonneg _ (le_max (fl 0) _ (fl-IsNum laws 0) (mul-IsNum _ _ c.age c.age_factor)).0

  compute_pdp-IsUnit :
      (x : ConditionedData W) (cfgs : AllIndicatorConfigs W)
      → IsValid cfgs
      → IsClean cfgs x
      → IsUnit (compute_pdp x cfgs.pdp)
  unfolding compute_pdp
  compute_pdp-IsUnit x cfgs v c = complement-IsUnit laws _ (
      clamp-IsUnit laws _
        (div-IsNum _ _ (effective_age-IsNum x cfgs c) v.design_life.0 v.design_life.1))

  compute_ci-IsUnit :
      (x : ConditionedData W) (cfgs : AllIndicatorConfigs W)
      → IsValid cfgs
      → IsClean cfgs x
      → IsUnit (compute_ci x cfgs.ci)
  unfolding compute_ci
  compute_ci-IsUnit x cfgs v c = clamp-IsUnit laws _ (
      IsNum-of_nonneg _ (
        add_nonneg laws _ _
          (add_nonneg laws _ _
            (weighted_sum _ _ _ _ v.ci.uptime_weight (clamp-IsUnit laws _ c.uptime)
              v.ci.consistency_weight (clamp-IsUnit laws _ c.consistency))
            (weighted_nonneg laws _ _ v.ci.calibration_weight.0 v.ci.calibration_weight.1
              (excess_score-IsUnit _ _ c.calibration v.ci.decay_days)))
          (weighted_nonneg laws _ _ v.ci.tamper_weight.0 v.ci.tamper_weight.1
            (clamp-IsUnit laws _ c.tamper))))

  -- ComputeAllIndicators, under a valid configuration, on finite readings for which neither a
  -- Wöhler power nor the age factor overflows: every indicator lies from 0.0 to 1.0.
  pub compute_all_indicators-AreUnit :
      (x : ConditionedData W) (cfgs : AllIndicatorConfigs W)
      → IsValid cfgs
      → IsClean cfgs x
      → AreUnit (compute_all_indicators x cfgs)
  unfolding compute_all_indicators
  compute_all_indicators-AreUnit x cfgs v c = (
    compute_shf-IsUnit x cfgs v c,
    compute_esf-IsUnit x cfgs v c,
    compute_uss-IsUnit x cfgs v c,
    compute_pdp-IsUnit x cfgs v c,
    compute_ci-IsUnit x cfgs v c,
  )

  -- ComputeHealthFactor of five indicators from 0.0 to 1.0 lies from 0.0 to 1.0, and its clamp
  -- changes nothing: it is the plain product SHF × ESF × (1 − USS) × PDP × CI.
  pub compute_health_factor-IsUnit :
      (ind : TechnicalIndicators W)
      → AreUnit ind
      → IsUnit (compute_health_factor ind)
        × (compute_health_factor ind ≡ ind.shf ⊗ ind.esf ⊗ (fl 1 ⊖ ind.uss) ⊗ ind.pdp ⊗ ind.ci)
  unfolding compute_health_factor
  compute_health_factor-IsUnit ind (s, e, u, p, c) =
      let product =
        product-IsUnit laws _ _
          (product-IsUnit laws _ _
            (product-IsUnit laws _ _ (product-IsUnit laws _ _ s e) (complement-IsUnit laws _ u)) p)
          c in
      let e' = clamp_id laws _ (fl 0) (fl 1) product.0 product.1 in (rw e' product, e')
