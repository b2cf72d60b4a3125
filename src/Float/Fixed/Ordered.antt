-- ===== src/Float/Fixed/Ordered.antt =====
-- The order of the whole ten-thousandths, and what keeps it.
use twinval_go_backend.Prelude.{ℕ, suc, ◌*◌, ◌/◌, ◌≤◌, ◌≡◌, refl, true, arith}
use twinval_go_backend.Prelude.Int.{ℤ, pos, negsuc, leb_ℤ}
use twinval_go_backend.Float.{IsOrdered}
use twinval_go_backend.Float.Fixed.{
  Fixed, test₂, div_ℕ, times, negate, mul_ℤ, quotient, fixed_float,
}

-- The laws on whole ten-thousandths.
div_mono' : (m n k : ℕ) → m ≤ n → m / suc k ≤ n / suc k
div_mono' m n k h = grind arith

pub div_ℕ_mono :
    (a b : ℤ) (k : ℕ) → leb_ℤ a b ≡ true → leb_ℤ (div_ℕ a (suc k)) (div_ℕ b (suc k)) ≡ true
div_ℕ_mono (pos m) (pos n) k h = grind (arith, div_mono' m n k)
div_ℕ_mono (pos m) (negsuc n) k h = ground arith
div_ℕ_mono (negsuc m) (pos n) k h = ground arith
div_ℕ_mono (negsuc m) (negsuc n) k h = grind (arith, div_mono' (suc n) (suc m) k)

mul_mono : (m n k : ℕ) → m ≤ n → m * k ≤ n * k
mul_mono m n k h = grind arith

pub times_mono : (a b : ℤ) (k : ℕ) → leb_ℤ a b ≡ true → leb_ℤ (times a k) (times b k) ≡ true
times_mono (pos m) (pos n) k h = ground (arith, mul_mono m n k)
times_mono (pos m) (negsuc n) k h = ground arith
times_mono (negsuc m) (pos n) k h = ground arith
times_mono (negsuc m) (negsuc n) k h = ground (arith, mul_mono (suc n) (suc m) k)

pub Fixed-IsOrdered : IsOrdered Fixed
Fixed-IsOrdered = record {
  IsNum-of_le = ground arith;
  IsNum-of_lt = ground arith;
  le_trans = ground arith;
  le_total = ground arith;
  lt-eq-not-le = ground arith;
  is_nan-eq-not-le = ground arith;
  is_inf_between = λ x y z _ _ _ _. refl;
  decimal_mono = ground arith;
  decimal_lt = ground arith;
  decimal_finite = λ n _. refl;
}

pub negate_mono : (a b : ℤ) → leb_ℤ a b ≡ true → leb_ℤ (negate b) (negate a) ≡ true
negate_mono a b h = ground arith

-- A product with a factor that is not negative.
pub mul_ℤ_mono_left :
    (c : ℕ) (a b : ℤ) → leb_ℤ a b ≡ true → leb_ℤ (mul_ℤ (pos c) a) (mul_ℤ (pos c) b) ≡ true
mul_ℤ_mono_left c (pos m) (pos n) h = ground (arith, mul_mono m n c, div_mono' (c * m) (c * n) 9999)
mul_ℤ_mono_left c (pos m) (negsuc n) h = ground arith
mul_ℤ_mono_left c (negsuc m) (pos n) h = ground arith
mul_ℤ_mono_left c (negsuc m) (negsuc n) h =
    ground (arith, mul_mono (suc n) (suc m) c, div_mono' (c * suc n) (c * suc m) 9999)

pub mul_ℤ_mono_right :
    (c : ℕ) (a b : ℤ) → leb_ℤ a b ≡ true → leb_ℤ (mul_ℤ a (pos c)) (mul_ℤ b (pos c)) ≡ true
mul_ℤ_mono_right c a b h = div_ℕ_mono (times a c) (times b c) 9999 (times_mono a b c h)

pub quotient_mono :
    (k : ℕ) (a b : ℤ)
    → leb_ℤ a b ≡ true
    → test₂ leb_ℤ (quotient a (pos (suc k))) (quotient b (pos (suc k))) ≡ true
quotient_mono k a b h = div_ℕ_mono (times a 10_000) (times b 10_000) k (times_mono a b 10_000 h)

pub leb_ℤ_refl : (a : ℤ) → leb_ℤ a a ≡ true
leb_ℤ_refl a = ground arith
