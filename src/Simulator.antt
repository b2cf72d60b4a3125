-- ===== src/Simulator.antt =====
-- cmd/simulator/main.go. The generator of math/rand, the clock, the JSON encoder and the HTTP client
-- are parameters.
pub mod Accepted
pub mod Loop
pub mod Posted
mod Tests
use twinval_go_backend.Prelude.{
  ℕ, Bool, not, Option, none, some, List, [], ◌∷◌, if◌then◌else◌, ◌==◌,
}
use twinval_go_backend.Prelude.Int.{ℤ, pos, ◌-ℤ◌, int64}
use twinval_go_backend.Prelude.Text.{Text, codes}
use twinval_go_backend.Float.{Float64, fl, decimal, ◌⊕◌, ◌⊗◌, ◌<?◌}
use twinval_go_backend.Condition.Types.{
  SensorType, sensor_vibration, sensor_strain, sensor_temperature, sensor_humidity, sensor_pm25,
  sensor_occupancy, sensor_electrical, sensor_water,
}
use twinval_go_backend.Ingest.Types.{WebhookReading, WebhookPayload}

-- What postPayload returns: nil, after a response with a status, or an error.
pub data PostResult : Type 0 where
  posted : ℕ → PostResult
  failed : PostResult

module _ {W : Type 0} ⦃d : Float64 W⦄ where
  abbrev pub reading : ℤ → Text → SensorType → Text → W → WebhookReading W
  reading now id st zone value = record {
    sensor_id = id;
    sensor_type = st;
    zone = zone;
    timestamp_ns = now;
    value = value;
    calibration_days_ago = fl 30;
  }

module _ {W G : Type 0} ⦃d : Float64 W⦄ (float64 : G → W × G) where
  -- `lo + rng.Float64()*width`.
  unfoldable pub drawn : W → W → G → W × G
  drawn lo width g = let (u, g') = float64 g in (lo ⊕ u ⊗ width, g')

  unfoldable pub generate_payload : Text → ℤ → G → WebhookPayload W × G
  unfolding drawn int64 ◌-ℤ◌
  generate_payload property_id now g =
      let (u, g₁) = float64 g in
      let stress = u <? decimal 500 in
      let (vib, g₂) = drawn (decimal 100) (decimal 700) g₁ in
      let (str, g₃) = drawn (fl 50) (fl 250) g₂ in
      let vibration = if stress then decimal 2500 else vib in
      let strain = if stress then fl 700 else str in
      let (temperature, g₄) = drawn (fl 20) (fl 6) g₃ in
      let (humidity, g₅) = drawn (fl 40) (fl 20) g₄ in
      let (pm, g₆) = drawn (fl 5) (fl 15) g₅ in
      let (occupancy, g₇) = drawn (decimal 3000) (decimal 6000) g₆ in
      let (electrical, g₈) = drawn (decimal 4000) (decimal 4500) g₇ in
      let (water, g₉) = drawn (decimal 2000) (decimal 4000) g₈ in
      (
        record {
          property_id = property_id;
          window_start_ns = int64 (now -ℤ pos 1_000_000_000);
          window_end_ns = now;
          readings =
              reading now (codes "vib1") sensor_vibration (codes "core") vibration
              ∷ reading now (codes "str1") sensor_strain (codes "beam-A") strain
              ∷ reading now (codes "tmp1") sensor_temperature (codes "lobby") temperature
              ∷ reading now (codes "hum1") sensor_humidity (codes "lobby") humidity
              ∷ reading now (codes "pm1") sensor_pm25 (codes "lobby") pm
              ∷ reading now (codes "occ1") sensor_occupancy (codes "core") occupancy
              ∷ reading now (codes "el1") sensor_electrical (codes "core") electrical
              ∷ reading now (codes "wat1") sensor_water (codes "core") water
              ∷ [];
        },
        g₉,
      )

-- The encoder, and the round trip of a body: `none` where no request or no response comes about.
unfoldable pub post_payload :
    {W : Type 0}
    → (WebhookPayload W → Option Text)
    → (Text → Option ℕ)
    → WebhookPayload W
    → PostResult
post_payload marshal round_trip p = elim (marshal p) [
  | none ↦ failed
  | some body ↦ elim (round_trip body) [ none ↦ failed | some status ↦ posted status ]
]
