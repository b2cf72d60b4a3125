-- ===== src/Float.antt =====
-- `float64`: the operations of the language and of package math that the program uses, as an
-- interface that every component takes, and the laws of IEEE 754 binary64 arithmetic (round to
-- nearest, no fused multiply-add) and of package math that the proofs rely on.
pub mod Order
pub mod Fixed
pub mod Scale
pub mod Within
use twinval_go_backend.Prelude.{ℕ, ◌+◌, ◌-◌, ◌*◌, ◌^◌, ◌≤◌, ◌<◌, ◌≡◌, ◌⊎◌, Bool, true, false, not}

pub record Float64 (W : Type 0) : Type 0 where
  -- The literal m / 10000, the `float64` nearest to it. No literal of the program is finer.
  pub decimal : ℕ → W
  pub add : W → W → W
  pub sub : W → W → W
  pub mul : W → W → W
  pub div : W → W → W
  pub le : W → W → Bool
  pub lt : W → W → Bool
  pub eq : W → W → Bool
  pub abs : W → W
  pub max : W → W → W
  pub min : W → W → W
  pub pow : W → W → W
  pub is_nan : W → Bool
  pub is_inf : W → Bool

-- `float64(n)`, and the literal n.0.
abbrev pub fl : {W : Type 0} ⦃d : Float64 W⦄ → ℕ → W
fl ⦃d⦄ n = d.decimal (n * 10_000)

abbrev pub decimal : {W : Type 0} ⦃d : Float64 W⦄ → ℕ → W
decimal ⦃d⦄ = d.decimal

infixl 65 ◌⊕◌ ◌⊖◌
infixl 70 ◌⊗◌ ◌⊘◌
infix 50 ◌<?◌ ◌≤?◌
infix 4 ◌≼◌ ◌≺◌
abbrev pub ◌⊕◌ : {W : Type 0} ⦃d : Float64 W⦄ → W → W → W
◌⊕◌ ⦃d⦄ = d.add

abbrev pub ◌⊖◌ : {W : Type 0} ⦃d : Float64 W⦄ → W → W → W
◌⊖◌ ⦃d⦄ = d.sub

abbrev pub ◌⊗◌ : {W : Type 0} ⦃d : Float64 W⦄ → W → W → W
◌⊗◌ ⦃d⦄ = d.mul

abbrev pub ◌⊘◌ : {W : Type 0} ⦃d : Float64 W⦄ → W → W → W
◌⊘◌ ⦃d⦄ = d.div

abbrev pub ◌<?◌ : {W : Type 0} ⦃d : Float64 W⦄ → W → W → Bool
◌<?◌ ⦃d⦄ = d.lt

abbrev pub ◌≤?◌ : {W : Type 0} ⦃d : Float64 W⦄ → W → W → Bool
◌≤?◌ ⦃d⦄ = d.le

abbrev pub ◌≼◌ : {W : Type 0} ⦃d : Float64 W⦄ → W → W → Type 0
x ≼ y = (x ≤? y) ≡ true

abbrev pub ◌≺◌ : {W : Type 0} ⦃d : Float64 W⦄ → W → W → Type 0
x ≺ y = (x <? y) ≡ true

-- Not a NaN: NaN is the value that is not `<=` itself.
abbrev pub IsNum : {W : Type 0} ⦃d : Float64 W⦄ → W → Type 0
IsNum x = x ≼ x

abbrev pub IsFinite : {W : Type 0} ⦃d : Float64 W⦄ → W → Type 0
IsFinite ⦃d⦄ x = (x ≼ x) × (d.is_inf x ≡ false)

-- From 0.0 to 1.0, both included.
abbrev pub IsUnit : {W : Type 0} ⦃d : Float64 W⦄ → W → Type 0
IsUnit x = (fl 0 ≼ x) × (x ≼ fl 1)

-- What IEEE 754 says of the comparisons and of the literals.
pub record IsOrdered (W : Type 0) ⦃d : Float64 W⦄ : Type 0 where
  pub IsNum-of_le : (x y : W) → x ≼ y → IsNum x × IsNum y
  pub IsNum-of_lt : (x y : W) → x ≺ y → IsNum x × IsNum y
  pub le_trans : (x y z : W) → x ≼ y → y ≼ z → x ≼ z
  pub le_total : (x y : W) → IsNum x → IsNum y → (x ≼ y) ⊎ (y ≼ x)
  pub lt-eq-not-le : (x y : W) → IsNum x → IsNum y → (x <? y) ≡ not (y ≤? x)
  pub is_nan-eq-not-le : (x : W) → d.is_nan x ≡ not (x ≤? x)
  pub is_inf_between :
      (x y z : W) → x ≼ y → y ≼ z → d.is_inf x ≡ false → d.is_inf z ≡ false → d.is_inf y ≡ false
  pub decimal_mono : (m n : ℕ) → m ≤ n → decimal {W = W} m ≼ decimal n
  pub decimal_lt : (m n : ℕ) → m < n → n ≤ 10 ^ 15 → decimal {W = W} m ≺ decimal n
  pub decimal_finite : (n : ℕ) → n ≤ 10 ^ 15 → d.is_inf (decimal n) ≡ false

-- Rounding is monotone and small integers are exact. A result is NaN only where IEEE 754 says so.
pub record IsIeee (W : Type 0) ⦃d : Float64 W⦄ : Type 0 where
  pub ordered : IsOrdered W
  pub open ordered use *
  pub add-IsNum : (x y : W) → IsNum x → IsFinite y → IsNum (x ⊕ y)
  pub add-IsNum' : (x y : W) → IsFinite x → IsNum y → IsNum (x ⊕ y)
  pub add_nonneg-IsNum : (x y : W) → fl 0 ≼ x → fl 0 ≼ y → IsNum (x ⊕ y)
  pub sub-IsNum : (x y : W) → IsNum x → IsFinite y → IsNum (x ⊖ y)
  pub sub-IsNum' : (x y : W) → IsFinite x → IsNum y → IsNum (x ⊖ y)
  pub sub_finite :
      (x y : W) → fl 0 ≼ x → fl 0 ≼ y → IsFinite x → IsFinite y → d.is_inf (x ⊖ y) ≡ false
  pub mul-IsNum : (x y : W) → IsFinite x → IsFinite y → IsNum (x ⊗ y)
  pub div-IsNum : (x y : W) → IsNum x → IsFinite y → fl 0 ≺ y → IsNum (x ⊘ y)
  pub add_mono : (a b x y : W) → a ≼ x → b ≼ y → IsNum (a ⊕ b) → IsNum (x ⊕ y) → a ⊕ b ≼ x ⊕ y
  pub sub_mono : (a b x y : W) → a ≼ x → y ≼ b → IsNum (a ⊖ b) → IsNum (x ⊖ y) → a ⊖ b ≼ x ⊖ y
  pub mul_mono_left : (c x y : W) → fl 0 ≼ c → x ≼ y → IsNum (c ⊗ x) → IsNum (c ⊗ y) → c ⊗ x ≼ c ⊗ y
  pub mul_mono_right :
      (c x y : W) → fl 0 ≼ c → x ≼ y → IsNum (x ⊗ c) → IsNum (y ⊗ c) → x ⊗ c ≼ y ⊗ c
  pub mul_anti_right :
      (c x y : W) → c ≼ fl 0 → x ≼ y → IsNum (x ⊗ c) → IsNum (y ⊗ c) → y ⊗ c ≼ x ⊗ c
  pub div_mono : (c x y : W) → IsFinite c → fl 0 ≺ c → x ≼ y → x ⊘ c ≼ y ⊘ c
  pub fl_add : (m n : ℕ) → m + n ≤ 10 ^ 9 → fl {W = W} m ⊕ fl n ≡ fl (m + n)
  pub fl_sub : (m n : ℕ) → n ≤ m → m ≤ 10 ^ 9 → fl {W = W} m ⊖ fl n ≡ fl (m - n)
  pub fl_mul :
      (m n : ℕ) → m ≤ 10 ^ 9 → n ≤ 10 ^ 9 → m * n ≤ 10 ^ 9 → fl {W = W} m ⊗ fl n ≡ fl (m * n)
  pub fl_div : (m n : ℕ) → 0 < n → m * n ≤ 10 ^ 9 → fl {W = W} (m * n) ⊘ fl n ≡ fl m
  pub mul_one : (x : W) → IsNum x → x ⊗ fl 1 ≡ x
  pub one_mul : (x : W) → IsNum x → fl 1 ⊗ x ≡ x
  pub mul_zero : (x : W) → IsFinite x → (x ⊗ fl 0 ≼ fl 0) × (fl 0 ≼ x ⊗ fl 0)
  pub zero_mul : (x : W) → IsFinite x → (fl 0 ⊗ x ≼ fl 0) × (fl 0 ≼ fl 0 ⊗ x)
  pub add_zero : (x : W) → IsNum x → (x ⊕ fl 0 ≼ x) × (x ≼ x ⊕ fl 0)
  pub zero_add : (x : W) → IsNum x → (fl 0 ⊕ x ≼ x) × (x ≼ fl 0 ⊕ x)
  pub sub_zero : (x : W) → IsNum x → x ⊖ fl 0 ≡ x
  pub sub_self : (x : W) → IsFinite x → x ⊖ x ≡ fl 0
  pub zero_div : (c : W) → IsFinite c → fl 0 ≺ c → fl 0 ⊘ c ≡ fl 0
  pub div_self : (c : W) → IsFinite c → fl 0 ≺ c → c ⊘ c ≡ fl 1
  pub abs_nonneg : (x : W) → IsNum x → fl 0 ≼ d.abs x
  pub le_max : (x y : W) → IsNum x → IsNum y → (x ≼ d.max x y) × (y ≼ d.max x y)
  pub max_cases : (x y : W) → IsNum x → IsNum y → (d.max x y ≡ x) ⊎ (d.max x y ≡ y)
  pub min_le : (x y : W) → IsNum x → IsNum y → (d.min x y ≼ x) × (d.min x y ≼ y)
  pub min_cases : (x y : W) → IsNum x → IsNum y → (d.min x y ≡ x) ⊎ (d.min x y ≡ y)
  pub min_nan_left : (x y : W) → ¬ IsNum x → IsFinite y → ¬ IsNum (d.min x y)
  -- For a negative y this fails at the negative zero, which is `<=` zero both ways.
  pub pow_nonneg : (x y : W) → fl 0 ≼ x → fl 0 ≼ y → fl 0 ≼ d.pow x y
  pub IsNum-of_add : (x y : W) → IsNum (x ⊕ y) → IsNum x × IsNum y
  pub IsNum-of_sub : (x y : W) → IsNum (x ⊖ y) → IsNum x × IsNum y
  pub IsNum-of_mul : (x y : W) → IsNum (x ⊗ y) → IsNum x × IsNum y
  pub IsNum-of_div : (x y : W) → IsNum (x ⊘ y) → IsNum x × IsNum y
