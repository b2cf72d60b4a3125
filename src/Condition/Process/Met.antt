-- ===== src/Condition/Process/Met.antt =====
-- The hypotheses of Process.Clean can be met: by the numbers of Float.Fixed, whose powers do not
-- overflow, and by the insertion sort.
use mathlib.Core.List.{Permᴰ}
use twinval_go_backend.Prelude.{refl, suc, ℕ, List, [], ◌∷◌, arith}
use twinval_go_backend.Prelude.Int.{ℤ}
use twinval_go_backend.Prelude.Text.{Text}
use twinval_go_backend.Float.{IsFinite, fl, ◌⊕◌, ◌≼◌}
use twinval_go_backend.Float.Fixed.{Fixed, nan, fin, fixed_float}
use twinval_go_backend.Compute.Configs.{default_all_configs}
use twinval_go_backend.Compute.Indicators.{wohler_power}
use twinval_go_backend.Condition.Groups.Members.{SortsStrings}
use twinval_go_backend.Condition.Process.Clean.{IsCalibrated}

abbrev IsFin : Fixed → Type 0
IsFin nan = ⊥
IsFin (fin z) = Unit

IsFin-IsFinite : (x : Fixed) → IsFin x → IsFinite x
IsFin-IsFinite nan h = elim h [ ]
IsFin-IsFinite (fin z) h = (ground arith, refl)

-- A positive divisor.
power-IsFinite :
    (x : Fixed) (c : ℕ) → fl 0 ≼ x → IsFinite (fl 1 ⊕ wohler_power x (fin (ℤ.pos (suc c))) (fl 4))
power-IsFinite nan c h = cc
power-IsFinite (fin z) c h =
    IsFin-IsFinite (fl 1 ⊕ wohler_power (fin z) (fin (ℤ.pos (suc c))) (fl 4)) tt

pub Fixed-IsCalibrated : IsCalibrated {W = Fixed} default_all_configs
Fixed-IsCalibrated = record {
  vibration_power = λ x w. power-IsFinite x 499 w.0;
  strain_power = λ x w. power-IsFinite x 1_999_999 w.0;
}

same-perm : (ids : List Text) → Permᴰ ids ids
same-perm [] = Permᴰ.nil
same-perm (i ∷ ids) = Permᴰ.cons refl (same-perm ids)

pub same-SortsStrings : SortsStrings (λ ids. ids)
same-SortsStrings = record { permutes = same-perm }
