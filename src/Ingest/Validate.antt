-- ===== src/Ingest/Validate.antt =====
-- internal/ingest/validate.go. fmt.Sprintf is a parameter, as its two verbs.
pub mod Acceptable
use twinval_go_backend.Prelude.{
  ℕ, zero, suc, ◌+◌, Bool, true, false, not, ◌||◌, Option, none, some, List, [], ◌∷◌, ◌++◌,
  if◌then◌else◌,
}
use twinval_go_backend.Prelude.Int.{ℤ, pos, negsuc}
use twinval_go_backend.Prelude.Text.{Text, codes, text_eq}
use twinval_go_backend.Float.{Float64}
use twinval_go_backend.Condition.Types.{
  SensorType, sensor_vibration, sensor_strain, sensor_temperature, sensor_humidity, sensor_pm25,
  sensor_occupancy, sensor_electrical, sensor_water,
}
use twinval_go_backend.Ingest.Types.{WebhookReading, WebhookPayload, IngestError, new_unprocessable}

-- `%d` on an index, and `%q`.
pub record Sprintf : Type 0 where
  pub decimal_of : ℕ → Text
  pub quoted : Text → Text

abbrev pub valid_sensor_types : List SensorType
valid_sensor_types =
    sensor_vibration ∷ sensor_strain ∷ sensor_temperature ∷ sensor_humidity ∷ sensor_pm25
    ∷ sensor_occupancy ∷ sensor_electrical ∷ sensor_water ∷ []

-- `_, ok := m[t]` on the keys of a map.
abbrev pub has_key : List Text → Text → Bool
has_key [] t = false
has_key (k ∷ ks) t = text_eq t k || has_key ks t

unfoldable pub is_valid_type : SensorType → Bool
is_valid_type t = has_key valid_sensor_types t

unfoldable pub is_zero : ℤ → Bool
is_zero (pos zero) = true
is_zero (pos (suc n)) = false
is_zero (negsuc n) = false

-- The message about the reading at an index.
abbrev at_reading : Sprintf → ℕ → Text → Text
at_reading fmt i what = codes "readings[" ++ (fmt.decimal_of i ++ (codes "]: " ++ what))

module _ {W : Type 0} ⦃d : Float64 W⦄ where
  -- The tests of one reading. `none` is nil.
  unfoldable pub validate_reading : Sprintf → ℕ → WebhookReading W → Option IngestError
  validate_reading fmt i r =
      if not (is_valid_type r.sensor_type)
      then some (
          new_unprocessable
            (at_reading fmt i (codes "unrecognised sensor_type " ++ fmt.quoted r.sensor_type)))
      else if is_zero r.timestamp_ns
      then some (new_unprocessable (at_reading fmt i (codes "timestamp_ns must be non-zero")))
      else if d.is_nan r.value || d.is_inf r.value
      then some (new_unprocessable (at_reading fmt i (codes "value must be finite")))
      else none

  -- The loop, from index `i` on.
  unfoldable pub validate_readings : Sprintf → ℕ → List (WebhookReading W) → Option IngestError
  unfolding validate_reading
  validate_readings fmt i [] = none
  validate_readings fmt i (r ∷ rs) =
      let rest = validate_readings fmt (i + 1) rs in
      elim (validate_reading fmt i r) [ none ↦ rest | some e ↦ some e ]

  unfoldable pub validate_payload : Sprintf → WebhookPayload W → Option IngestError
  unfolding validate_readings
  validate_payload fmt p =
      if text_eq p.property_id []
      then some (new_unprocessable (codes "property_id is required"))
      else elim p.readings [
        | [] ↦ some (new_unprocessable (codes "at least one reading is required"))
        | r ∷ rs ↦ validate_readings fmt 0 (r ∷ rs)
      ]
