-- ===== src/Float/Within.antt =====
-- Numbers from 0.0 to a whole number, which the operations below carry along without rounding error
-- in the bound.
use twinval_go_backend.Prelude.{ℕ, ◌+◌, ◌*◌, ◌^◌, ◌≤◌, ◌<◌, ◌≡◌, arith}
use twinval_go_backend.Float.{Float64, IsIeee, IsFinite, IsUnit, fl, ◌⊕◌, ◌⊗◌, ◌⊘◌, ◌≼◌, ◌≺◌}
use twinval_go_backend.Float.Order.{fl-IsFinite, fl-IsNum, unit-IsFinite, add_nonneg, div_nonneg}

abbrev pub Within : {W : Type 0} ⦃d : Float64 W⦄ → ℕ → W → Type 0
Within n x = (fl 0 ≼ x) × (x ≼ fl n)

module _ {W : Type 0} ⦃d : Float64 W⦄ (laws : IsIeee W) where
  open laws use {
    IsNum-of_le, le_trans, is_inf_between, decimal_mono, decimal_lt, add-IsNum, add_mono,
    add_nonneg-IsNum, mul-IsNum, mul_mono_right, one_mul, zero_mul, div_mono, fl_add, fl_div,
  }

  pub Within-IsFinite : (n : ℕ) (x : W) → n ≤ 10 ^ 9 → Within n x → IsFinite x
  Within-IsFinite n x h (low, high) = (
    (IsNum-of_le _ _ low).1,
    is_inf_between _ _ _ low high (fl-IsFinite laws 0 (omega arith)).1 (fl-IsFinite laws n h).1,
  )

  pub Within_mono : (m n : ℕ) (x : W) → m ≤ n → Within m x → Within n x
  Within_mono m n x h (low, high) =
      (low, le_trans _ _ _ high (decimal_mono (m * 10_000) (n * 10_000) (omega arith)))

  pub zero-Within : (n : ℕ) → Within {W = W} n (fl 0)
  zero-Within n = (fl-IsNum laws 0, decimal_mono 0 (n * 10_000) (omega arith))

  pub add-Within :
      (m n : ℕ) (x y : W) → m + n ≤ 10 ^ 9 → Within m x → Within n y → Within (m + n) (x ⊕ y)
  add-Within m n x y h (p, q) (r, s) =
      let top : fl m ⊕ fl n ≡ fl (m + n) = fl_add m n h in
      let above : x ⊕ y ≼ fl m ⊕ fl n =
        add_mono x y (fl m) (fl n) q s (add_nonneg-IsNum x y p r)
          (rw top (fl-IsNum laws (m + n))) in
      (add_nonneg laws x y p r, rw top at above)

  -- A weight from 0.0 to 1.0 does not enlarge a number.
  pub weighted-Within : (n : ℕ) (u x : W) → n ≤ 10 ^ 9 → IsUnit u → Within n x → Within n (u ⊗ x)
  weighted-Within n u x h v (low, high) =
      let f = Within-IsFinite n x h (low, high) in
      let z = fl-IsFinite laws 0 (omega arith) in
      let o = fl-IsFinite laws 1 (omega arith) in
      let p = mul-IsNum u x (unit-IsFinite laws u v) f in
      let above : u ⊗ x ≼ fl 1 ⊗ x = mul_mono_right x u (fl 1) low v.1 p (mul-IsNum _ _ o f) in
      (
        le_trans _ _ _ (zero_mul x f).1 (mul_mono_right x (fl 0) u low v.0 (mul-IsNum _ _ z f) p),
        le_trans _ _ _ (rw (one_mul x f.0) at above) high,
      )

  pub fl_pos : (n : ℕ) → 0 < n → n ≤ 10 ^ 9 → fl {W = W} 0 ≺ fl n
  fl_pos n p h = decimal_lt 0 (n * 10_000) (omega arith) (omega arith)

  -- The n-th part of a number up to m * n is at most m.
  pub part-Within :
      (m n : ℕ) (x : W)
      → 0 < n
      → n ≤ 10 ^ 9
      → m * n ≤ 10 ^ 9
      → Within (m * n) x
      → Within m (x ⊘ fl n)
  part-Within m n x p k h (low, high) =
      let f = fl-IsFinite laws n k in
      let q = fl_pos n p k in
      let above = div_mono (fl n) x (fl (m * n)) f q high in
      (div_nonneg laws x (fl n) f q low, rw (fl_div m n (omega arith) h) at above)
