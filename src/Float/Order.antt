-- ===== src/Float/Order.antt =====
-- Consequences of the laws of `Float` that several components use.
use twinval_go_backend.Prelude.{inl, inr, ℕ, ◌*◌, ◌^◌, ◌≤◌, ◌≡◌, false, arith, if◌then◌else◌}
use twinval_go_backend.Float.{
  Float64, IsIeee, IsNum, IsFinite, IsUnit, fl, ◌⊕◌, ◌⊖◌, ◌⊗◌, ◌≼◌, ◌≺◌, ◌<?◌, ◌≤?◌, ◌⊘◌,
}

module _ {W : Type 0} ⦃d : Float64 W⦄ where
  -- `if v < lo { return lo }; if v > hi { return hi }; return v`, which four packages declare.
  abbrev pub clamp : W → W → W → W
  clamp v lo hi = if v <? lo then lo else if hi <? v then hi else v

module _ {W : Type 0} ⦃d : Float64 W⦄ (laws : IsIeee W) where
  open laws use {
    IsNum-of_le, IsNum-of_lt, le_trans, le_total, lt-eq-not-le, decimal_mono, decimal_lt,
    decimal_finite, is_inf_between, sub-IsNum, sub-IsNum', sub_mono, mul_mono_left, mul_mono_right,
    mul_anti_right, mul-IsNum, add_zero, add_mono, add_nonneg-IsNum, mul_one, one_mul, zero_mul,
    zero_div, div_mono, div_self, zero_add, mul_zero, sub_zero, sub_self, fl_sub,
  }

  pub le_of_lt : (x y : W) → x ≺ y → x ≼ y
  le_of_lt x y h = ground (arith, IsNum-of_lt x y h, lt-eq-not-le x y, le_total x y)

  pub le_of_not_lt : (x y : W) → IsNum x → IsNum y → (x <? y) ≡ false → y ≼ x
  le_of_not_lt x y p q h = ground (arith, lt-eq-not-le x y p q)

  pub fl-IsNum : (n : ℕ) → IsNum (fl {W = W} n)
  fl-IsNum n = (IsNum-of_le _ _ (decimal_mono (n * 10_000) (n * 10_000) (omega arith))).0

  pub unit-IsFinite : (x : W) → IsUnit x → IsFinite x
  unit-IsFinite x (p, q) = (
    (IsNum-of_le _ _ q).0,
    is_inf_between _ _ _ p q (decimal_finite 0 (omega arith)) (decimal_finite 10_000 (omega arith)),
  )

  pub fl-IsFinite : (n : ℕ) → n ≤ 10 ^ 9 → IsFinite (fl {W = W} n)
  fl-IsFinite n h = (fl-IsNum n, decimal_finite (n * 10_000) (omega arith))

  pub zero-le-one : fl {W = W} 0 ≼ fl 1
  zero-le-one = decimal_mono 0 10_000 (omega arith)

  pub lt_of_lt-le : (x y z : W) → x ≺ y → y ≼ z → x ≺ z
  lt_of_lt-le x y z h k = ground (
    arith,
    IsNum-of_lt x y h,
    IsNum-of_le y z k,
    lt-eq-not-le x y,
    lt-eq-not-le x z,
    le_trans y z x k,
  )

  pub zero-lt-one : fl {W = W} 0 ≺ fl 1
  zero-lt-one = decimal_lt 0 10_000 (omega arith) (omega arith)

  -- A clamped number lies between the bounds.
  pub clamp_bounds : (v lo hi : W) → IsNum v → lo ≼ hi → (lo ≼ clamp v lo hi) × (clamp v lo hi ≼ hi)
  clamp_bounds v lo hi n h =
      ground (arith, IsNum-of_le lo hi h, le_of_not_lt v lo n, le_of_not_lt hi v)

  pub clamp-IsUnit : (v : W) → IsNum v → IsUnit (clamp v (fl 0) (fl 1))
  clamp-IsUnit v n = clamp_bounds v (fl 0) (fl 1) n zero-le-one

  -- A number that is in range already passes unchanged.
  pub clamp_id : (v lo hi : W) → lo ≼ v → v ≼ hi → clamp v lo hi ≡ v
  clamp_id v lo hi p q =
      ground (arith, IsNum-of_le lo v p, IsNum-of_le v hi q, lt-eq-not-le v lo, lt-eq-not-le hi v)

  -- NaN passes through both tests.
  pub clamp_nan : (v lo hi : W) → ¬ IsNum v → clamp v lo hi ≡ v
  clamp_nan v lo hi n =
      ground
        (arith, λ (h : v ≺ lo). n (IsNum-of_lt v lo h).0, λ (h : hi ≺ v). n (IsNum-of_lt hi v h).1)

  pub clamp_mono : (u v lo hi : W) → u ≼ v → lo ≼ hi → clamp u lo hi ≼ clamp v lo hi
  clamp_mono u v lo hi h r = ground (
    arith,
    IsNum-of_le u v h,
    IsNum-of_le lo hi r,
    le_of_not_lt u lo,
    le_of_not_lt hi u,
    le_of_not_lt v lo,
    le_of_not_lt hi v,
    le_trans lo u v,
    le_trans u v hi h,
    le_trans hi u v,
    lt-eq-not-le hi v,
    lt-eq-not-le v lo,
    lt-eq-not-le hi u,
    lt-eq-not-le u lo,
  )

  -- `1.0 - x` stays in the unit interval.
  pub complement-IsUnit : (x : W) → IsUnit x → IsUnit (fl 1 ⊖ x)
  complement-IsUnit x u = (low, high)
    where
      one : IsFinite (fl {W = W} 1)
      one = fl-IsFinite 1 (omega arith)

      zero-IsFinite : IsFinite (fl {W = W} 0)
      zero-IsFinite = fl-IsFinite 0 (omega arith)

      result : IsNum (fl 1 ⊖ x)
      result = sub-IsNum _ x one.0 (unit-IsFinite x u)

      low : fl 0 ≼ fl 1 ⊖ x
      low =
          rw (← sub_self (fl 1) one)
            (sub_mono (fl 1) (fl 1) (fl 1) x one.0 u.1 (sub-IsNum _ _ one.0 one) result)

      high : fl 1 ⊖ x ≼ fl 1
      high =
          rw (sub_zero (fl 1) one.0) at
            (sub_mono (fl 1) x (fl 1) (fl 0) one.0 u.0 result (sub-IsNum _ _ one.0 zero-IsFinite))

  -- The product of two values of the unit interval stays in it.
  pub product-IsUnit : (x y : W) → IsUnit x → IsUnit y → IsUnit (x ⊗ y)
  product-IsUnit x y u v = (low, high)
    where
      one : IsFinite (fl {W = W} 1)
      one = fl-IsFinite 1 (omega arith)

      zero-IsFinite : IsFinite (fl {W = W} 0)
      zero-IsFinite = fl-IsFinite 0 (omega arith)

      x_finite : IsFinite x
      x_finite = unit-IsFinite x u

      result : IsNum (x ⊗ y)
      result = mul-IsNum x y x_finite (unit-IsFinite y v)

      low : fl 0 ≼ x ⊗ y
      low =
          le_trans _ _ _ (mul_zero x x_finite).1
            (mul_mono_left x (fl 0) y u.0 v.0 (mul-IsNum _ _ x_finite zero-IsFinite) result)

      high : x ⊗ y ≼ fl 1
      high =
          le_trans _ _ _
            (rw (mul_one x x_finite.0) at
              (mul_mono_left x y (fl 1) u.0 v.1 result (mul-IsNum _ _ x_finite one)))
            u.1

  -- A non-negative weight times a value of the unit interval is not negative.
  pub weighted_nonneg : (w x : W) → fl 0 ≼ w → IsFinite w → IsUnit x → fl 0 ≼ w ⊗ x
  weighted_nonneg w x p f u =
      let zero-IsFinite = fl-IsFinite 0 (omega arith) in
      le_trans _ _ _ (mul_zero w f).1 (
        mul_mono_left w (fl 0) x p u.0 (mul-IsNum _ _ f zero-IsFinite)
          (mul-IsNum _ _ f (unit-IsFinite x u)))

  pub add_nonneg : (x y : W) → fl 0 ≼ x → fl 0 ≼ y → fl 0 ≼ x ⊕ y
  add_nonneg x y p q =
      let z : IsNum (fl {W = W} 0) = fl-IsNum 0 in
      le_trans _ _ _ (add_zero (fl 0) z).1
        (add_mono (fl 0) (fl 0) x y p q (add_nonneg-IsNum _ _ z z) (add_nonneg-IsNum x y p q))

  pub le_of_not_le : (x y : W) → IsNum x → IsNum y → (x ≤? y) ≡ false → y ≼ x
  le_of_not_le x y p q h = ground (arith, le_total x y p q)

  pub le-one_add : (x : W) → fl 0 ≼ x → x ≼ fl 1 ⊕ x
  le-one_add x p =
      let n : IsNum x = (IsNum-of_le (fl 0) x p).1 in
      le_trans _ _ _ (zero_add x n).1 (
        add_mono (fl 0) x (fl 1) x zero-le-one n (add_nonneg-IsNum _ _ (fl-IsNum 0) p)
          (add_nonneg-IsNum _ _ zero-le-one p))

  pub one_add_pos : (x : W) → fl 0 ≼ x → fl 0 ≺ fl 1 ⊕ x
  one_add_pos x p = lt_of_lt-le _ _ _ zero-lt-one (
      le_trans _ _ _ (add_zero (fl 1) (fl-IsNum 1)).1 (
        add_mono (fl 1) (fl 0) (fl 1) x (fl-IsNum 1) p
          (add_nonneg-IsNum _ _ zero-le-one (fl-IsNum 0)) (add_nonneg-IsNum _ _ zero-le-one p)))

  pub div_nonneg : (x c : W) → IsFinite c → fl 0 ≺ c → fl 0 ≼ x → fl 0 ≼ x ⊘ c
  div_nonneg x c f p h = rw (zero_div c f p) at (div_mono c (fl 0) x f p h)

  -- A part of a positive whole.
  pub ratio-IsUnit : (x c : W) → IsFinite c → fl 0 ≺ c → fl 0 ≼ x → x ≼ c → IsUnit (x ⊘ c)
  ratio-IsUnit x c f p h k = (div_nonneg x c f p h, rw (div_self c f p) at (div_mono c x c f p k))

  pub sub_nonneg : (x y : W) → IsFinite x → IsNum y → x ≼ y → fl 0 ≼ y ⊖ x
  sub_nonneg x y f n h =
      rw (sub_self x f) at (sub_mono x x y x h f.0 (sub-IsNum x x f.0 f) (sub-IsNum y x n f))

  -- Scaling by a factor of the unit interval does not overflow.
  pub scaled-IsFinite : (c x : W) → IsUnit c → IsFinite x → IsFinite (c ⊗ x)
  scaled-IsFinite c x u f = (result, finite)
    where
      c_finite : IsFinite c
      c_finite = unit-IsFinite c u

      zero-IsFinite : IsFinite (fl {W = W} 0)
      zero-IsFinite = fl-IsFinite 0 (omega arith)

      one : IsFinite (fl {W = W} 1)
      one = fl-IsFinite 1 (omega arith)

      result : IsNum (c ⊗ x)
      result = mul-IsNum c x c_finite f

      finite : d.is_inf (c ⊗ x) ≡ false
      finite = elim (le_total (fl 0) x (fl-IsNum 0) f.0) [
        | inl up ↦
            is_inf_between (fl 0) (c ⊗ x) x
              (le_trans _ _ _ (mul_zero c c_finite).1
                (mul_mono_left c (fl 0) x u.0 up (mul-IsNum _ _ c_finite zero-IsFinite) result))
              (rw (one_mul x f.0) at
                (mul_mono_right x c (fl 1) up u.1 result (mul-IsNum _ _ one f)))
              zero-IsFinite.1 f.1
        | inr down ↦
            is_inf_between x (c ⊗ x) (fl 0)
              (rw (one_mul x f.0) at
                (mul_anti_right x c (fl 1) down u.1 result (mul-IsNum _ _ one f)))
              (le_trans _ _ _
                (mul_anti_right x (fl 0) c down u.0 (mul-IsNum _ _ zero-IsFinite f) result)
                (zero_mul x f).0)
              f.1 zero-IsFinite.1
      ]
