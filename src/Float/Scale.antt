-- ===== src/Float/Scale.antt =====
-- A number from 0.0 to 1.0 times a constant, and moved by another.
use twinval_go_backend.Prelude.{ℕ, ◌+◌, ◌*◌, ◌≤◌, ◌^◌, ◌≡◌, arith}
use twinval_go_backend.Float.{Float64, IsIeee, IsFinite, IsUnit, fl, decimal, ◌⊕◌, ◌⊗◌, ◌≼◌}
use twinval_go_backend.Float.Order.{unit-IsFinite, fl-IsFinite, add_nonneg}

module _ {W : Type 0} ⦃d : Float64 W⦄ (laws : IsIeee W) where
  open laws use {
    IsNum-of_le, le_trans, is_inf_between, decimal_mono, decimal_finite, mul_mono_right, mul-IsNum,
    zero_mul, one_mul, add_mono, add_nonneg-IsNum, fl_add,
  }

  pub decimal-IsFinite : (n : ℕ) → n ≤ 10 ^ 15 → IsFinite (decimal {W = W} n)
  decimal-IsFinite n h =
      ((IsNum-of_le (decimal n) (decimal n) (decimal_mono n n (omega arith))).0, decimal_finite n h)

  -- A score times a positive constant lies from 0.0 to the constant.
  pub scaled_bounds :
      (v : W) (n : ℕ)
      → n ≤ 10 ^ 15
      → IsUnit v
      → (fl 0 ≼ v ⊗ decimal n) × (v ⊗ decimal n ≼ decimal n)
  scaled_bounds v n h u =
      let c = decimal-IsFinite n h in
      let pos_c = decimal_mono 0 n (omega arith) in
      let z = fl-IsFinite laws 0 (omega arith) in
      let o = fl-IsFinite laws 1 (omega arith) in
      let p = mul-IsNum v (decimal n) (unit-IsFinite laws v u) c in
      (
        le_trans _ _ _ (zero_mul (decimal n) c).1
            (mul_mono_right (decimal n) (fl 0) v pos_c u.0 (mul-IsNum _ _ z c) p),
        le_of_eq (one_mul (decimal n) c.0)
            (mul_mono_right (decimal n) v (fl 1) pos_c u.1 p (mul-IsNum _ _ o c)),
      )
    where
      le_of_eq : {x y z : W} → y ≡ z → x ≼ y → x ≼ z
      le_of_eq e l = rw (← e) l

  -- A number from 0.0 to 1.0 times a constant, plus a constant, is finite.
  pub shifted-IsFinite :
      (lo width : ℕ) (u : W)
      → lo + width ≤ 10 ^ 9
      → IsUnit u
      → IsFinite (decimal lo ⊕ u ⊗ decimal width)
  shifted-IsFinite lo width u h v =
      let (low, high) = scaled_bounds u width (omega arith) v in
      let from_zero = decimal_mono 0 lo (omega arith) in
      let total = add_nonneg-IsNum _ _ from_zero low in
      let top : fl lo ⊕ fl width ≡ fl (lo + width) = fl_add lo width h in
      let whole = fl-IsFinite laws (lo + width) (omega arith) in
      let above : decimal lo ⊕ u ⊗ decimal width ≼ fl lo ⊕ fl width =
        add_mono _ _ _ _ (decimal_mono lo (lo * 10_000) (omega arith))
          (le_trans _ _ _ high (decimal_mono width (width * 10_000) (omega arith))) total
          (rw top whole.0) in
      (
        total,
        is_inf_between _ _ _ (add_nonneg laws _ _ from_zero low) (rw top at above)
            (fl-IsFinite laws 0 (omega arith)).1 whole.1,
      )
