-- ===== src/Condition/Preprocess.antt =====
-- internal/condition/preprocess.go.
pub mod Align
pub mod Smooth
use twinval_go_backend.Prelude.{List, [], ◌∷◌, map, if◌then◌else◌}
use twinval_go_backend.Prelude.Int.{ℤ, leb_ℤ}
use twinval_go_backend.Prelude.Text.{Text}
use twinval_go_backend.Float.{Float64, fl, ◌⊕◌, ◌⊖◌, ◌⊗◌, ◌⊘◌, ◌≤?◌}
use twinval_go_backend.Float.Order.{clamp}
use twinval_go_backend.Condition.Types.{RawSensorReading}
use twinval_go_backend.Condition.Groups.{Sorting, group_by}

module _ {W : Type 0} ⦃d : Float64 W⦄ where
  -- The loop, `previous` being `out[i-1]`.
  unfoldable pub smooth : W → W → List W → List W
  smooth alpha previous [] = []
  smooth alpha previous (v ∷ vs) =
      let next = alpha ⊗ v ⊕ (fl 1 ⊖ alpha) ⊗ previous in next ∷ smooth alpha next vs

  unfoldable pub denoise : List W → W → List W
  unfolding smooth
  denoise [] alpha = []
  denoise (v ∷ vs) alpha = v ∷ smooth alpha v vs

  unfoldable pub normalise : W → W → W → W
  normalise value lo hi = if hi ≤? lo then fl 0 else clamp ((value ⊖ lo) ⊘ (hi ⊖ lo)) (fl 0) (fl 1)

module _ {W : Type 0} where
  -- The readings that the guard on the timestamp lets through.
  unfoldable pub up_to : ℤ → List (RawSensorReading W) → List (RawSensorReading W)
  up_to as_of [] = []
  up_to as_of (r ∷ rs) =
      let rest = up_to as_of rs in if leb_ℤ r.timestamp_ns as_of then r ∷ rest else rest

  -- `series[len(series)-1].Value`, of a series that is not empty.
  unfoldable pub last_value : W → List (RawSensorReading W) → W
  last_value v [] = v
  last_value v (r ∷ rs) = last_value r.value rs

  -- One entry for each sensor. The groups are never empty, so `zero` is never read.
  unfoldable pub align_timestamps : Sorting W → W → List (RawSensorReading W) → ℤ → List (Text × W)
  align_timestamps lib zero readings as_of =
      map
        (λ (g : Text × List (RawSensorReading W)).
          (g.0, last_value zero (lib.sort_by_timestamp g.1)))
        (group_by (λ (r : RawSensorReading W). r.sensor_id) (up_to as_of readings))
