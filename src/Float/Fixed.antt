-- ===== src/Float/Fixed.antt =====
-- A number system that meets the laws of `Float` and runs: whole ten-thousandths, and NaN. The
-- witnesses of the theorems are stated over it.
pub mod Ordered
pub mod Laws
use twinval_go_backend.Prelude.{
  ℕ, zero, suc, ◌+◌, ◌*◌, ◌/◌, ◌^◌, ◌≤◌, ◌<◌, ◌≡◌, refl, ap, ◌⊎◌, inl, inr, Bool, true, false, ◌&&◌,
  arith, if◌then◌else◌,
}
use twinval_go_backend.Prelude.Int.{ℤ, pos, negsuc, pos_part, neg_part, sub_ℕ, ltb_ℤ, leb_ℤ}
use twinval_go_backend.Float.{
  Float64, IsOrdered, IsIeee, IsNum, IsFinite, fl, ◌⊕◌, ◌⊖◌, ◌⊗◌, ◌⊘◌, ◌≼◌, ◌≺◌,
}
use native.Mathlib.Nat.{mul-div_cancel_left, mul-div_left}

pub data Fixed : Type 0 where
  nan : Fixed
  fin : ℤ → Fixed

abbrev pub scale : ℕ
scale = 10_000

abbrev lift₂ : (ℤ → ℤ → ℤ) → Fixed → Fixed → Fixed
lift₂ f nan y = nan
lift₂ f (fin a) nan = nan
lift₂ f (fin a) (fin b) = fin (f a b)

abbrev pub test₂ : (ℤ → ℤ → Bool) → Fixed → Fixed → Bool
test₂ f nan y = false
test₂ f (fin a) nan = false
test₂ f (fin a) (fin b) = f a b

abbrev pub add_ℤ : ℤ → ℤ → ℤ
add_ℤ a b = sub_ℕ (pos_part a + pos_part b) (neg_part a + neg_part b)

abbrev pub minus : ℤ → ℤ → ℤ
minus a b = sub_ℕ (pos_part a + neg_part b) (neg_part a + pos_part b)

-- Rounded towards zero.
abbrev pub div_ℕ : ℤ → ℕ → ℤ
div_ℕ (pos n) k = pos (n / k)
div_ℕ (negsuc n) k = sub_ℕ 0 (suc n / k)

abbrev pub times : ℤ → ℕ → ℤ
times (pos n) k = pos (n * k)
times (negsuc n) k = sub_ℕ 0 (suc n * k)

abbrev pub negate : ℤ → ℤ
negate a = sub_ℕ (neg_part a) (pos_part a)

abbrev pub mul_ℤ : ℤ → ℤ → ℤ
mul_ℤ a (pos n) = div_ℕ (times a n) 10_000
mul_ℤ a (negsuc n) = negate (div_ℕ (times a (suc n)) 10_000)

abbrev pub quotient : ℤ → ℤ → Fixed
quotient a (pos zero) = nan
quotient a (pos (suc n)) = fin (div_ℕ (times a 10_000) (suc n))
quotient a (negsuc n) = fin (negate (div_ℕ (times a 10_000) (suc n)))

abbrev divide : Fixed → Fixed → Fixed
divide nan y = nan
divide (fin a) nan = nan
divide (fin a) (fin b) = quotient a b

abbrev choose : (ℤ → ℤ → Bool) → ℤ → ℤ → ℤ
choose f a b = if f a b then a else b

abbrev magnitude : Fixed → Fixed
magnitude nan = nan
magnitude (fin (pos n)) = fin (pos n)
magnitude (fin (negsuc n)) = fin (pos (suc n))

-- For whole exponents.
abbrev pub power_ℕ : ℤ → ℕ → ℤ
power_ℕ a zero = pos 10_000
power_ℕ a (suc n) = mul_ℤ (power_ℕ a n) a

abbrev pub power : ℤ → ℤ → ℤ
power a (pos n) = power_ℕ a (n / 10_000)
power a (negsuc n) = pos 0

abbrev is_nan_fixed : Fixed → Bool
is_nan_fixed nan = true
is_nan_fixed (fin a) = false

instance abbrev pub fixed_float : Float64 Fixed
fixed_float = record {
  decimal = λ n. fin (pos n);
  add = lift₂ add_ℤ;
  sub = lift₂ minus;
  mul = lift₂ mul_ℤ;
  div = divide;
  le = test₂ leb_ℤ;
  lt = test₂ ltb_ℤ;
  eq = test₂ (λ a b. leb_ℤ a b && leb_ℤ b a);
  abs = magnitude;
  max = lift₂ (choose (λ a b. leb_ℤ b a));
  min = lift₂ (choose leb_ℤ);
  pow = lift₂ power;
  is_nan = is_nan_fixed;
  is_inf = λ _. false;
}
