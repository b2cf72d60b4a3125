-- ===== src/Float/Fixed/Laws.antt =====
-- The laws of `IsIeee` on the whole ten-thousandths.
use twinval_go_backend.Prelude.{
  ℕ, zero, suc, ◌*◌, ◌/◌, ◌^◌, ◌≤◌, ◌<◌, ◌≡◌, refl, ap, ◌⊎◌, inl, inr, true, arith,
}
use twinval_go_backend.Prelude.Int.{ℤ, pos, negsuc, leb_ℤ}
use twinval_go_backend.Float.{IsIeee, IsNum, IsFinite, fl, ◌⊕◌, ◌⊖◌, ◌⊗◌, ◌⊘◌, ◌≼◌, ◌≺◌}
use native.Mathlib.Nat.{mul-div_cancel_left, mul-div_left}
use twinval_go_backend.Float.Fixed.{
  Fixed, nan, fin, add_ℤ, minus, div_ℕ, times, mul_ℤ, quotient, power_ℕ, fixed_float,
}
use twinval_go_backend.Float.Fixed.Ordered.{
  Fixed-IsOrdered, div_ℕ_mono, times_mono, negate_mono, mul_ℤ_mono_left, mul_ℤ_mono_right,
  quotient_mono, leb_ℤ_refl,
}

mul-IsNum : (x y : Fixed) → IsFinite x → IsFinite y → IsNum (x ⊗ y)
mul-IsNum nan y h k = cc (h.0)
mul-IsNum (fin a) nan h k = cc (k.0)
mul-IsNum (fin a) (fin b) h k = leb_ℤ_refl (mul_ℤ a b)

IsNum-of_mul : (x y : Fixed) → IsNum (x ⊗ y) → IsNum x × IsNum y
IsNum-of_mul nan y h = cc
IsNum-of_mul (fin a) nan h = cc
IsNum-of_mul (fin a) (fin b) h = (leb_ℤ_refl a, leb_ℤ_refl b)

IsNum-of_div : (x y : Fixed) → IsNum (x ⊘ y) → IsNum x × IsNum y
IsNum-of_div nan y h = cc
IsNum-of_div (fin a) nan h = cc
IsNum-of_div (fin a) (fin b) h = (leb_ℤ_refl a, leb_ℤ_refl b)

div-IsNum : (x y : Fixed) → IsNum x → IsFinite y → fl 0 ≺ y → IsNum (x ⊘ y)
div-IsNum nan y h k p = cc
div-IsNum (fin a) nan h k p = cc
div-IsNum (fin a) (fin (pos zero)) h k p = ground arith
div-IsNum (fin a) (fin (pos (suc n))) h k p = leb_ℤ_refl (div_ℕ (times a 10_000) (suc n))
div-IsNum (fin a) (fin (negsuc n)) h k p = ground arith

add_ℤ_mono :
    (a b x y : ℤ) → leb_ℤ a x ≡ true → leb_ℤ b y ≡ true → leb_ℤ (add_ℤ a b) (add_ℤ x y) ≡ true
add_ℤ_mono a b x y h k = ground arith

add_mono : (a b x y : Fixed) → a ≼ x → b ≼ y → IsNum (a ⊕ b) → IsNum (x ⊕ y) → a ⊕ b ≼ x ⊕ y
add_mono (fin a) (fin b) (fin x) (fin y) h k _ _ = add_ℤ_mono a b x y h k
add_mono nan _ _ _ h k p q = cc (h)
add_mono (fin a) nan _ _ h k p q = cc (k)
add_mono (fin a) (fin b) nan _ h k p q = cc (h)
add_mono (fin a) (fin b) (fin x) nan h k p q = cc (k)

minus_mono :
    (a b x y : ℤ) → leb_ℤ a x ≡ true → leb_ℤ y b ≡ true → leb_ℤ (minus a b) (minus x y) ≡ true
minus_mono a b x y h k = ground arith

sub_mono : (a b x y : Fixed) → a ≼ x → y ≼ b → IsNum (a ⊖ b) → IsNum (x ⊖ y) → a ⊖ b ≼ x ⊖ y
sub_mono (fin a) (fin b) (fin x) (fin y) h k _ _ = minus_mono a b x y h k
sub_mono nan _ _ _ h k p q = cc (h)
sub_mono (fin a) nan _ _ h k p q = cc (p)
sub_mono (fin a) (fin b) nan _ h k p q = cc (h)
sub_mono (fin a) (fin b) (fin x) nan h k p q = cc (k)

mul_mono_left : (c x y : Fixed) → fl 0 ≼ c → x ≼ y → IsNum (c ⊗ x) → IsNum (c ⊗ y) → c ⊗ x ≼ c ⊗ y
mul_mono_left (fin (pos c)) (fin a) (fin b) h k _ _ = mul_ℤ_mono_left c a b k
mul_mono_left (fin (negsuc c)) _ _ h k p q = ground arith
mul_mono_left (fin (pos c)) nan _ h k p q = cc (k)
mul_mono_left (fin (pos c)) (fin a) nan h k p q = cc (k)
mul_mono_left nan _ _ h k p q = cc

mul_mono_right : (c x y : Fixed) → fl 0 ≼ c → x ≼ y → IsNum (x ⊗ c) → IsNum (y ⊗ c) → x ⊗ c ≼ y ⊗ c
mul_mono_right (fin (pos c)) (fin a) (fin b) h k _ _ = mul_ℤ_mono_right c a b k
mul_mono_right (fin (negsuc c)) _ _ h k p q = ground arith
mul_mono_right (fin (pos c)) nan _ h k p q = cc (k)
mul_mono_right (fin (pos c)) (fin a) nan h k p q = cc (k)
mul_mono_right nan _ _ h k p q = cc (h)

div_mono : (c x y : Fixed) → IsFinite c → fl 0 ≺ c → x ≼ y → x ⊘ c ≼ y ⊘ c
div_mono (fin (pos (suc c))) (fin a) (fin b) f h k = quotient_mono c a b k
div_mono (fin (pos (suc c))) nan _ f h k = cc (k)
div_mono (fin (pos (suc c))) (fin a) nan f h k = cc (k)
div_mono (fin (pos zero)) _ _ f h k = ground arith
div_mono (fin (negsuc c)) _ _ f h k = ground arith
div_mono nan _ _ f h k = cc (h)

zero_div : (c : Fixed) → IsFinite c → fl 0 ≺ c → fl 0 ⊘ c ≡ fl 0
zero_div (fin (pos (suc c))) f h = ground arith
zero_div (fin (pos zero)) f h = ground arith
zero_div (fin (negsuc c)) f h = ground arith
zero_div nan f h = cc (h)

div_self : (c : Fixed) → IsFinite c → fl 0 ≺ c → c ⊘ c ≡ fl 1
div_self (fin (pos (suc c))) f h =
    ap (λ k. fin (pos k)) (mul-div_cancel_left 10_000 {n = suc c} (omega arith))
div_self (fin (pos zero)) f h = ground arith
div_self (fin (negsuc c)) f h = ground arith
div_self nan f h = cc (h)

power_ℕ-pos : (n k : ℕ) → (m : ℕ) × (power_ℕ (pos n) k ≡ pos m)
power_ℕ-pos n zero = (10_000, refl)
power_ℕ-pos n (suc k) = let (m, e) = power_ℕ-pos n k in (m * n / 10_000, rw e)

pow_nonneg : (x y : Fixed) → fl 0 ≼ x → fl 0 ≼ y → fl 0 ≼ fixed_float.pow x y
pow_nonneg nan _ h f = cc (h)
pow_nonneg (fin a) nan h f = cc (f)
pow_nonneg (fin (negsuc n)) (fin b) h f = ground arith
pow_nonneg (fin (pos n)) (fin (negsuc k)) h f = refl
pow_nonneg (fin (pos n)) (fin (pos k)) h f =
    let (m, e) = power_ℕ-pos n (k / 10_000) in rw e (ground arith)

le_max : (x y : Fixed) → IsNum x → IsNum y → (x ≼ fixed_float.max x y) × (y ≼ fixed_float.max x y)
le_max nan _ h k = cc (h)
le_max (fin a) nan h k = cc (k)
le_max (fin a) (fin b) h k = ground arith

max_cases :
    (x y : Fixed) → IsNum x → IsNum y → (fixed_float.max x y ≡ x) ⊎ (fixed_float.max x y ≡ y)
max_cases nan _ h k = inl refl
max_cases (fin a) nan h k = inr refl
max_cases (fin a) (fin b) h k = ground arith

min_le : (x y : Fixed) → IsNum x → IsNum y → (fixed_float.min x y ≼ x) × (fixed_float.min x y ≼ y)
min_le nan _ h k = cc (h)
min_le (fin a) nan h k = cc (k)
min_le (fin a) (fin b) h k = ground arith

min_cases :
    (x y : Fixed) → IsNum x → IsNum y → (fixed_float.min x y ≡ x) ⊎ (fixed_float.min x y ≡ y)
min_cases nan _ h k = inl refl
min_cases (fin a) nan h k = inr refl
min_cases (fin a) (fin b) h k = ground arith

mul_ℤ_anti_right :
    (c : ℕ) (a b : ℤ) → leb_ℤ a b ≡ true → leb_ℤ (mul_ℤ b (negsuc c)) (mul_ℤ a (negsuc c)) ≡ true
mul_ℤ_anti_right c a b h =
    negate_mono (div_ℕ (times a (suc c)) 10_000) (div_ℕ (times b (suc c)) 10_000)
      (div_ℕ_mono (times a (suc c)) (times b (suc c)) 9999 (times_mono a b (suc c) h))

mul_ℤ_zero : (a : ℤ) → mul_ℤ a (pos 0) ≡ pos 0
mul_ℤ_zero a = ground arith

mul_anti_right : (c x y : Fixed) → c ≼ fl 0 → x ≼ y → IsNum (x ⊗ c) → IsNum (y ⊗ c) → y ⊗ c ≼ x ⊗ c
mul_anti_right (fin (negsuc c)) (fin a) (fin b) h k _ _ = mul_ℤ_anti_right c a b k
mul_anti_right (fin (pos zero)) (fin a) (fin b) h k _ _ =
    rw (mul_ℤ_zero a, mul_ℤ_zero b) (ground arith)
mul_anti_right (fin (pos (suc c))) _ _ h k p q = ground arith
mul_anti_right (fin (pos zero)) nan _ h k p q = cc
mul_anti_right (fin (pos zero)) (fin a) nan h k p q = cc
mul_anti_right (fin (negsuc c)) nan _ h k p q = cc
mul_anti_right (fin (negsuc c)) (fin a) nan h k p q = cc
mul_anti_right nan _ _ h k p q = cc

quotient_exact : (a b q : ℕ) → 0 < q → a * 10_000 ≡ b * q → quotient (pos a) (pos q) ≡ fin (pos b)
quotient_exact a b zero p h = absurd (omega arith)
quotient_exact a b (suc k) p h =
    ap (λ n. fin (pos n)) (rw h (mul-div_left b {n = suc k} (omega arith)))

fl_div : (m n : ℕ) → 0 < n → m * n ≤ 10 ^ 9 → fl {W = Fixed} (m * n) ⊘ fl n ≡ fl m
fl_div m n h k =
    quotient_exact (m * n * 10_000) (m * 10_000) (n * 10_000) (omega arith) (omega arith)

fl_mul : (m n : ℕ) → fl {W = Fixed} m ⊗ fl n ≡ fl (m * n)
fl_mul m n =
    ap (λ k. fin (pos k)) (rw regroup (mul-div_left (m * n * 10_000) {n = 10_000} (omega arith)))
  where
    regroup : m * 10_000 * (n * 10_000) ≡ m * n * 10_000 * 10_000
    regroup = grind arith

pub Fixed-IsIeee : IsIeee Fixed
Fixed-IsIeee = record {
  ordered = Fixed-IsOrdered;
  add-IsNum = ground arith;
  add-IsNum' = ground arith;
  add_nonneg-IsNum = ground arith;
  sub-IsNum = ground arith;
  sub-IsNum' = ground arith;
  sub_finite = λ x y _ _ _ _. refl;
  mul-IsNum = mul-IsNum;
  div-IsNum = div-IsNum;
  add_mono = add_mono;
  sub_mono = sub_mono;
  mul_mono_left = mul_mono_left;
  mul_mono_right = mul_mono_right;
  mul_anti_right = mul_anti_right;
  div_mono = div_mono;
  fl_mul = λ m n _ _ _. fl_mul m n;
  fl_div = fl_div;
  fl_add = ground arith;
  fl_sub = ground arith;
  mul_one = ground arith;
  one_mul = ground arith;
  mul_zero = ground arith;
  zero_mul = ground arith;
  add_zero = ground arith;
  zero_add = ground arith;
  sub_zero = ground arith;
  sub_self = ground arith;
  zero_div = zero_div;
  div_self = div_self;
  abs_nonneg = ground arith;
  le_max = le_max;
  max_cases = max_cases;
  min_le = min_le;
  min_cases = min_cases;
  min_nan_left = ground arith;
  pow_nonneg = pow_nonneg;
  IsNum-of_add = ground arith;
  IsNum-of_sub = ground arith;
  IsNum-of_mul = IsNum-of_mul;
  IsNum-of_div = IsNum-of_div;
}
