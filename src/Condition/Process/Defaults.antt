-- ===== src/Condition/Process/Defaults.antt =====
-- DefaultConditioningConfig (internal/condition/types.go) is settled.
use mathlib.Core.Path.{subst}
use twinval_go_backend.Prelude.{◌≡◌, some, arith}
use twinval_go_backend.Prelude.Maps.{lookup-All}
use twinval_go_backend.Float.{Float64, IsIeee, IsFinite, fl, ◌⊖◌, ◌≺◌}
use twinval_go_backend.Float.Order.{fl-IsFinite, zero-lt-one}
use twinval_go_backend.Float.Scale.{decimal-IsFinite}
use twinval_go_backend.Condition.Types.{Range, default_conditioning_config}
use twinval_go_backend.Condition.Integrity.Report.{IsSettled}

module _ {W : Type 0} ⦃d : Float64 W⦄ (laws : IsIeee W) where
  open laws use {decimal_mono, fl_sub}

  abbrev IsWide : Range W → Type 0
  IsWide r = IsFinite r.low × IsFinite (r.high ⊖ r.low) × (fl 0 ≺ r.high ⊖ r.low)

  unit_range : (r : Range W) → some (record { low = fl 0; high = fl 1 }) ≡ some r → IsWide r
  unit_range r e =
      let whole : fl {W = W} 1 ⊖ fl 0 ≡ fl 1 = fl_sub 1 0 (omega arith) (omega arith) in
      let zero_one : Range W = record { low = fl 0; high = fl 1 } in
      let same : zero_one ≡ r = cc in
      subst IsWide same (
        fl-IsFinite laws 0 (omega arith),
        rw whole (fl-IsFinite laws 1 (omega arith)),
        rw whole (zero-lt-one laws),
      )

  pub default_conditioning_config-IsSettled : IsSettled {W = W} default_conditioning_config
  default_conditioning_config-IsSettled = record {
    alpha = (decimal_mono 0 2000 (omega arith), decimal_mono 2000 10_000 (omega arith));
    tolerances = λ t w e.
        lookup-All IsFinite t default_conditioning_config.consistency_tolerances
          (
            decimal-IsFinite laws 200 (omega arith),
            (
              fl-IsFinite laws 50 (omega arith),
              (
                fl-IsFinite laws 1 (omega arith),
                (
                  fl-IsFinite laws 5 (omega arith),
                  (
                    fl-IsFinite laws 5 (omega arith),
                    (
                      decimal-IsFinite laws 1000 (omega arith),
                      (
                        decimal-IsFinite laws 1000 (omega arith),
                        (decimal-IsFinite laws 1000 (omega arith), tt),
                      ),
                    ),
                  ),
                ),
              ),
            ),
          )
          w e;
    occupancy = unit_range;
    electrical = unit_range;
    water = unit_range;
  }
