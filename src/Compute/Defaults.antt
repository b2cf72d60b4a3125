-- ===== src/Compute/Defaults.antt =====
-- DefaultAllConfigs (internal/compute/indicators.go) is valid.
use twinval_go_backend.Prelude.{ℕ, ◌+◌, ◌-◌, ◌*◌, ◌^◌, ◌≤◌, ◌<◌, ◌≡◌, ap, ◌∙◌, arith}
use twinval_go_backend.Float.{Float64, IsIeee, fl, decimal, ◌⊕◌, ◌⊖◌}
use twinval_go_backend.Float.Order.{fl-IsFinite}
use twinval_go_backend.Float.Scale.{decimal-IsFinite}
use twinval_go_backend.Compute.Configs.{default_all_configs}
use twinval_go_backend.Compute.Valid.{IsValid, IsWeight, IsPositive, IsRange}

module _ {W : Type 0} ⦃d : Float64 W⦄ (laws : IsIeee W) where
  open laws use {decimal_mono, decimal_lt, fl_add, fl_sub, fl_div}

  weight : (n : ℕ) → n ≤ 10 ^ 9 → IsWeight (decimal {W = W} n)
  weight n h = (decimal_mono 0 n (omega arith), decimal-IsFinite laws n (omega arith))

  positive : (n : ℕ) → 0 < n → n ≤ 10 ^ 9 → IsPositive (decimal {W = W} n)
  positive n p h = (decimal-IsFinite laws n (omega arith), decimal_lt 0 n p (omega arith))

  -- The middle and half the width are whole.
  range : (m h : ℕ) → 0 < h → h ≤ m → m ≤ 10 ^ 5 → IsRange (fl {W = W} (m - h)) (fl (m + h))
  range m h p l k =
      let total : fl {W = W} (m - h) ⊕ fl (m + h) ≡ fl (m * 2) =
        fl_add (m - h) (m + h) (omega arith) ∙ ap (λ (n : ℕ). fl {W = W} n) (omega arith) in
      let width : fl {W = W} (m + h) ⊖ fl (m - h) ≡ fl (h * 2) =
        fl_sub (m + h) (m - h) (omega arith) (omega arith)
        ∙ ap (λ (n : ℕ). fl {W = W} n) (omega arith) in
      (
        rw (total, fl_div m 2 (omega arith) (omega arith)) (fl-IsFinite laws m (omega arith)),
        rw (width, fl_div h 2 (omega arith) (omega arith))
            (positive (h * 10_000) (omega arith) (omega arith)),
      )

  pub default_all_configs-IsValid : IsValid {W = W} default_all_configs
  default_all_configs-IsValid = record {
    shf = record {
      exponent = laws.decimal_mono 0 40_000 (omega arith);
      vibration_ceiling = positive 500 (omega arith) (omega arith);
      strain_ceiling = positive 2_000_000 (omega arith) (omega arith);
      vibration_weight = weight 6000 (omega arith);
      strain_weight = weight 4000 (omega arith);
    };
    esf = record {
      temp_range = range 22 4 (omega arith) (omega arith) (omega arith);
      humidity_range = range 50 10 (omega arith) (omega arith) (omega arith);
      safe_level = positive 150_000 (omega arith) (omega arith);
      temp_weight = weight 4000 (omega arith);
      humidity_weight = weight 3500 (omega arith);
      air_qual_weight = weight 2500 (omega arith);
    };
    uss = record {
      occupancy_weight = weight 5000 (omega arith);
      electrical_weight = weight 3000 (omega arith);
      water_weight = weight 2000 (omega arith);
    };
    design_life = positive 500_000 (omega arith) (omega arith);
    ci = record {
      uptime_weight = weight 3000 (omega arith);
      consistency_weight = weight 3000 (omega arith);
      calibration_weight = weight 2000 (omega arith);
      tamper_weight = weight 2000 (omega arith);
      decay_days = positive 900_000 (omega arith) (omega arith);
    };
  }
