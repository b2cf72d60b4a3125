-- ===== src/Sync/Evolution/Laws.antt =====
-- The variables of the digital twin stay in range (internal/sync/evolution.go).
use mathlib.Core.Bool.{false≢true}
use twinval_go_backend.Prelude.{◌≡◌, ◌⊎◌, refl, false, arith, inl, inr, Bool-cases}
use twinval_go_backend.Float.{
  Float64, IsIeee, IsNum, IsFinite, IsUnit, fl, ◌⊕◌, ◌⊖◌, ◌⊗◌, ◌≼◌, ◌≺◌, ◌<?◌,
}
use twinval_go_backend.Float.Order.{
  clamp, le_of_lt, clamp-IsUnit, clamp_mono, clamp_id, complement-IsUnit, product-IsUnit,
  weighted_nonneg, add_nonneg, unit-IsFinite, fl-IsFinite, zero-le-one,
}
use twinval_go_backend.Compute.Types.{ConditionedData}
use twinval_go_backend.Compute.Valid.{IsWeight, IsPositive}
use twinval_go_backend.Sync.Types.{StateMachineConfig}
use twinval_go_backend.Sync.Evolution.{
  excess_penalty, evolve_structural_stiffness, evolve_environmental_exposure,
  evolve_cumulative_usage_load,
}

module _ {W : Type 0} ⦃d : Float64 W⦄ where
  -- Rates are finite and not negative, the smoothing factor lies in the unit interval.
  pub record HasRates (cfg : StateMachineConfig W) : Type 0 where
    pub vibration_ceiling : IsPositive cfg.indicators.shf.vibration_normal_ceiling
    pub strain_ceiling : IsPositive cfg.indicators.shf.strain_normal_ceiling
    pub vibration_decay : IsWeight cfg.stiffness_decay_per_unit_vibration
    pub strain_decay : IsWeight cfg.stiffness_decay_per_unit_strain
    pub recovery : IsWeight cfg.stiffness_recovery_rate
    pub smoothing : IsUnit cfg.environment_smoothing_factor
    pub accumulation : IsWeight cfg.usage_accumulation_rate

module _ {W : Type 0} ⦃d : Float64 W⦄ (laws : IsIeee W) where
  open laws use {
    IsNum-of_le, IsNum-of_lt, le_trans, le_total, is_inf_between, sub-IsNum, sub-IsNum', sub_mono,
    add-IsNum', mul-IsNum, mul_mono_left, mul_mono_right, mul_zero, zero_mul, add_zero, add_mono,
    add_nonneg-IsNum, sub_zero, le_max, max_cases, sub_self,
  }

  IsNum-of_nonneg : (x : W) → fl 0 ≼ x → IsNum x
  IsNum-of_nonneg x p = (IsNum-of_le (fl 0) x p).1

  zero-IsFinite : IsFinite (fl {W = W} 0)
  zero-IsFinite = fl-IsFinite laws 0 (omega arith)

  excess-IsFinite :
      (x c : W)
      → IsFinite x
      → IsPositive c
      → (fl 0 ≼ d.max (fl 0) (x ⊖ c)) × IsFinite (d.max (fl 0) (x ⊖ c))
  excess-IsFinite x c fx (fc, p) = (low, both)
    where
      e : W
      e = x ⊖ c

      z : IsFinite (fl {W = W} 0)
      z = zero-IsFinite

      n : IsNum e
      n = sub-IsNum x c fx.0 fc

      low : fl 0 ≼ d.max (fl 0) e
      low = (le_max (fl 0) e z.0 n).0

      below : e ≼ x
      below =
          rw (sub_zero x fx.0) at
            (sub_mono x c x (fl 0) fx.0 (le_of_lt laws _ _ p) n (sub-IsNum _ _ fx.0 z))

      finite : (d.max (fl 0) e ≡ fl 0) ⊎ (d.max (fl 0) e ≡ e) → d.is_inf (d.max (fl 0) e) ≡ false
      finite (inl q) = rw q z.1
      finite (inr q) = is_inf_between (fl 0) _ x low (rw q below) z.1 fx.1

      both : IsFinite (d.max (fl 0) e)
      both = (IsNum-of_nonneg _ low, finite (max_cases (fl 0) e z.0 n))

  product_nonneg : (x w : W) → fl 0 ≼ x → IsFinite x → IsWeight w → fl 0 ≼ x ⊗ w
  product_nonneg x w p f (q, g) =
      le_trans _ _ _ (mul_zero x f).1
        (mul_mono_left x (fl 0) w p q (mul-IsNum _ _ f zero-IsFinite) (mul-IsNum _ _ f g))

  penalty_nonneg :
      (x : ConditionedData W) (cfg : StateMachineConfig W)
      → HasRates cfg
      → IsFinite x.vibration_magnitude
      → IsFinite x.strain_magnitude
      → fl 0 ≼ excess_penalty x cfg
  penalty_nonneg x cfg r fv fs =
      let (pv, nv) = excess-IsFinite _ _ fv r.vibration_ceiling in
      let (ps, ns) = excess-IsFinite _ _ fs r.strain_ceiling in
      add_nonneg laws _ _ (product_nonneg _ _ pv nv r.vibration_decay)
        (product_nonneg _ _ ps ns r.strain_decay)

  gap_nonneg : (c current : W) → IsWeight c → IsUnit current → fl 0 ≼ c ⊗ (fl 1 ⊖ current)
  gap_nonneg c current w u =
      weighted_nonneg laws c (fl 1 ⊖ current) w.0 w.1 (complement-IsUnit laws current u)

  -- The clamp of a value below (above) one in range stays below (above) it.
  clamped_le : (c v : W) → IsUnit c → v ≼ c → clamp v (fl 0) (fl 1) ≼ c
  clamped_le c v (p, q) h =
      rw (clamp_id laws c (fl 0) (fl 1) p q) at
        (clamp_mono laws v c (fl 0) (fl 1) h (zero-le-one laws))

  clamped_ge : (c v : W) → IsUnit c → c ≼ v → c ≼ clamp v (fl 0) (fl 1)
  clamped_ge c v (p, q) h =
      rw (clamp_id laws c (fl 0) (fl 1) p q) at
        (clamp_mono laws c v (fl 0) (fl 1) h (zero-le-one laws))

  falls : (c p : W) → IsUnit c → fl 0 ≼ p → IsNum (c ⊖ p) × (c ⊖ p ≼ c)
  falls c p u h =
      let f = unit-IsFinite laws c u in
      let n : IsNum (c ⊖ p) = sub-IsNum' c p f (IsNum-of_nonneg p h) in
      (n, rw (sub_zero c f.0) at (sub_mono c p c (fl 0) f.0 h n (sub-IsNum _ _ f.0 zero-IsFinite)))

  grows : (c p : W) → IsFinite c → fl 0 ≼ p → IsNum (c ⊕ p) × (c ≼ c ⊕ p)
  grows c p f h =
      let n : IsNum (c ⊕ p) = add-IsNum' c p f (IsNum-of_nonneg p h) in
      (
        n,
        le_trans _ _ _ (add_zero c f.0).1
            (add_mono c (fl 0) c p f.0 h (add-IsNum' _ _ f zero-IsFinite.0) n),
      )

  recovers :
      (c rate : W)
      → IsUnit c
      → IsWeight rate
      → IsNum (c ⊕ rate ⊗ (fl 1 ⊖ c)) × (c ≼ c ⊕ rate ⊗ (fl 1 ⊖ c))
  recovers c rate u w = grows c _ (unit-IsFinite laws c u) (gap_nonneg rate c w u)

  -- evolveStructuralStiffness from a stiffness in the unit interval, with finite readings and
  -- rates, stays in the unit interval. It does not rise where the penalty of the two excesses is
  -- positive, and does not fall otherwise.
  pub evolve_structural_stiffness-IsUnit :
      (current : W) (x : ConditionedData W) (cfg : StateMachineConfig W)
      → HasRates cfg
      → IsFinite x.vibration_magnitude
      → IsFinite x.strain_magnitude
      → IsUnit current
      → let next = evolve_structural_stiffness current x cfg in
        IsUnit next
        × ((fl 0 ≺ excess_penalty x cfg × (next ≼ current))
            ⊎ ((¬ fl 0 ≺ excess_penalty x cfg) × (current ≼ next)))
  unfolding evolve_structural_stiffness
  evolve_structural_stiffness-IsUnit current x cfg r fv fs u =
      let pen = penalty_nonneg x cfg r fv fs in
      elim (Bool-cases (fl 0 <? excess_penalty x cfg)) [
        | inl y ↦ rw y (
            let (n, le) = falls current (excess_penalty x cfg) u pen in
            (clamp-IsUnit laws _ n, inl (refl, clamped_le current _ u le)))
        | inr y ↦ rw y (
            let (n, le) = recovers current cfg.stiffness_recovery_rate u r.recovery in
            (clamp-IsUnit laws _ n, inr (false≢true, clamped_ge current _ u le)))
      ]

  -- evolveEnvironmentalExposure from an exposure and an ESF in the unit interval stays in the unit
  -- interval.
  pub evolve_environmental_exposure-IsUnit :
      (current esf : W) (cfg : StateMachineConfig W)
      → HasRates cfg
      → IsUnit current
      → IsUnit esf
      → IsUnit (evolve_environmental_exposure current esf cfg)
  unfolding evolve_environmental_exposure
  evolve_environmental_exposure-IsUnit current esf cfg r u e = clamp-IsUnit laws _ (
      IsNum-of_nonneg _ (
        add_nonneg laws _ _ (product-IsUnit laws _ _ r.smoothing (complement-IsUnit laws esf e)).0
          (product-IsUnit laws _ _ (complement-IsUnit laws _ r.smoothing) u).0))

  -- evolveCumulativeUsageLoad never lowers a load that is not negative, for a usage stress in the
  -- unit interval.
  pub evolve_cumulative_usage_load_grows :
      (current uss : W) (cfg : StateMachineConfig W)
      → HasRates cfg
      → fl 0 ≼ current
      → IsUnit uss
      → current ≼ evolve_cumulative_usage_load current uss cfg
  unfolding evolve_cumulative_usage_load
  evolve_cumulative_usage_load_grows current uss cfg r p u =
      let up : fl 0 ≼ uss ⊗ cfg.usage_accumulation_rate =
        product_nonneg _ _ u.0 (unit-IsFinite laws uss u) r.accumulation in
      let n = IsNum-of_nonneg current p in
      ground (
        arith,
        n,
        le_trans _ _ _ (add_zero current n).1 (
            add_mono current (fl 0) current _ n up (add_nonneg-IsNum _ _ p zero-IsFinite.0)
              (add_nonneg-IsNum _ _ p up)),
      )
