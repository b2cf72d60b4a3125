-- ===== src/Ashrae/Sensor/Scores.antt =====
-- The scores of Next.
use twinval_go_backend.Prelude.{ℕ, ◌≤◌, ◌^◌, ◌≡◌, inl, inr, arith, Bool-cases, All}
use twinval_go_backend.Prelude.Text.{Text}
use twinval_go_backend.Float.{Float64, IsIeee, IsNum, IsFinite, IsUnit, fl, ◌⊖◌, ◌≼◌, ◌≤?◌}
use twinval_go_backend.Float.Order.{
  clamp, clamp_bounds, clamp-IsUnit, clamp_nan, complement-IsUnit, fl-IsFinite,
}
use twinval_go_backend.Float.Scale.{scaled_bounds}
use twinval_go_backend.Condition.Types.{RawSensorReading, PropertyMeta}
use twinval_go_backend.Ashrae.Sampling.{SensorLibrary, clamp01, round1, round4, weather_reading}
use twinval_go_backend.Ashrae.Sensor.{SensorEngine, SensorReading, next, to_raw_sensor_batch}
use twinval_go_backend.Ashrae.Sensor.Ranges.{IsMeasured, Fits, scale, to_raw_sensor_batch-Fits}

-- What package math says of Round: it is monotone, keeps whole numbers, and passes NaN on.
pub record Rounds {W G : Type 0} ⦃d : Float64 W⦄ (lib : SensorLibrary W G) : Type 0 where
  pub round_mono : (x y : W) → x ≼ y → lib.round x ≼ lib.round y
  pub round_fl : (n : ℕ) → n ≤ 10 ^ 9 → lib.round (fl n) ≡ fl n
  pub IsNum-of_round : (x : W) → IsNum (lib.round x) → IsNum x

module _ {W : Type 0} ⦃d : Float64 W⦄ where
  -- What the batch takes of a reading is no NaN.
  pub record IsNumeric (r : SensorReading W) : Type 0 where
    pub vibration : IsNum r.vibration
    pub strain : IsNum r.strain
    pub occupancy : IsNum r.occupancy
    pub electrical_load : IsNum r.electrical_load
    pub air_quality : IsNum r.air_quality
    pub humidity : IsNum r.weather.humidity_pct

module _ {W G : Type 0} ⦃d : Float64 W⦄ (laws : IsIeee W) (lib : SensorLibrary W G)
    (rounds : Rounds lib) where
  open laws use {
    IsNum-of_le, is_inf_between, mul-IsNum, mul_mono_right, decimal_mono, fl_mul, fl_div,
    IsNum-of_div, IsNum-of_mul, IsNum-of_sub, div_mono, zero_div, div_self, decimal_lt,
  }

  clamp-IsNum : (v lo hi : W) → IsNum (clamp v lo hi) → IsNum v
  clamp-IsNum v lo hi n = elim (Bool-cases (v ≤? v)) [
    | inl e ↦ e
    | inr e ↦
        let not_num : ¬ IsNum v = λ h. ground arith in
        absurd (not_num (rw (clamp_nan laws v lo hi not_num) at n))
  ]

  clamp01-IsUnit : (v : W) → IsNum (clamp01 v) → IsUnit (clamp01 v)
  clamp01-IsUnit v n = clamp-IsUnit laws v (clamp-IsNum v (fl 0) (fl 1) n)

  -- Rounding to four decimals stays in range, and invents no number.
  round4-IsUnit : (v : W) → IsUnit v → IsUnit (round4 lib v)
  unfolding round4
  round4-IsUnit v u =
      let (low, high) = scaled_bounds laws v 100_000_000 (omega arith) u in
      let c = fl-IsFinite laws 10_000 (omega arith) in
      let p = decimal_lt 0 100_000_000 (omega arith) (omega arith) in
      let a = div_mono _ _ _ c p (rounds.round_mono _ _ low) in
      let b = div_mono _ _ _ c p (rounds.round_mono _ _ high) in
      (
        rw (rounds.round_fl 0 (omega arith), zero_div _ c p) at a,
        rw (rounds.round_fl 10_000 (omega arith), div_self _ c p) at b,
      )

  round4-IsNum : (v : W) → IsNum (round4 lib v) → IsNum v
  unfolding round4
  round4-IsNum v n = (IsNum-of_mul _ _ (rounds.IsNum-of_round _ (IsNum-of_div _ _ n).0)).0

  score-IsUnit : (v : W) → IsNum (round4 lib (clamp01 v)) → IsUnit (round4 lib (clamp01 v))
  score-IsUnit v n = round4-IsUnit (clamp01 v) (clamp01-IsUnit v (round4-IsNum (clamp01 v) n))

  inverse_score-IsUnit :
      (v : W) → IsNum (round4 lib (fl 1 ⊖ clamp01 v)) → IsUnit (round4 lib (fl 1 ⊖ clamp01 v))
  inverse_score-IsUnit v n = round4-IsUnit (fl 1 ⊖ clamp01 v) (
      complement-IsUnit laws (clamp01 v)
        (clamp01-IsUnit v (IsNum-of_sub _ _ (round4-IsNum (fl 1 ⊖ clamp01 v) n)).1))

  -- Rounding to one decimal keeps the range of the humidity.
  round1-Between :
      (v : W) → (fl 20 ≼ v) × (v ≼ fl 100) → (fl 20 ≼ round1 lib v) × (round1 lib v ≼ fl 100)
  unfolding round1
  round1-Between v (p, q) =
      let low = fl-IsFinite laws 20 (omega arith) in
      let high = fl-IsFinite laws 100 (omega arith) in
      let ten = fl-IsFinite laws 10 (omega arith) in
      let nonneg = decimal_mono 0 100_000 (omega arith) in
      let f : IsFinite v = ((IsNum-of_le _ _ p).1, is_inf_between _ v _ p q low.1 high.1) in
      let n = mul-IsNum v (fl 10) f ten in
      let a = mul_mono_right _ _ _ nonneg p (mul-IsNum _ _ low ten) n in
      let b = mul_mono_right _ _ _ nonneg q n (mul-IsNum _ _ high ten) in
      let c = decimal_lt 0 100_000 (omega arith) (omega arith) in
      (
        rw
            (
              fl_mul 20 10 (omega arith) (omega arith) (omega arith),
              rounds.round_fl 200 (omega arith),
              fl_div 20 10 (omega arith) (omega arith),
            )
            at (div_mono _ _ _ ten c (rounds.round_mono _ _ a)),
        rw
            (
              fl_mul 100 10 (omega arith) (omega arith) (omega arith),
              rounds.round_fl 1000 (omega arith),
              fl_div 100 10 (omega arith) (omega arith),
            )
            at (div_mono _ _ _ ten c (rounds.round_mono _ _ b)),
      )

  humidity-Between :
      (v : W)
      → IsNum (round1 lib (clamp v (fl 20) (fl 100)))
      → (fl 20 ≼ round1 lib (clamp v (fl 20) (fl 100)))
        × (round1 lib (clamp v (fl 20) (fl 100)) ≼ fl 100)
  unfolding round1
  humidity-Between v n =
      let clamped = (IsNum-of_mul _ _ (rounds.IsNum-of_round _ (IsNum-of_div _ _ n).0)).0 in
      round1-Between _ (
        clamp_bounds laws v (fl 20) (fl 100) (clamp-IsNum v (fl 20) (fl 100) clamped)
          (decimal_mono 200_000 1_000_000 (omega arith)))

  next-IsMeasured : (e : SensorEngine W G) → IsNumeric (next lib e).0 → IsMeasured (next lib e).0
  unfolding next weather_reading
  next-IsMeasured e n = record {
    vibration = score-IsUnit _ n.vibration;
    strain = score-IsUnit _ n.strain;
    occupancy = score-IsUnit _ n.occupancy;
    electrical_load = score-IsUnit _ n.electrical_load;
    air_quality = inverse_score-IsUnit _ n.air_quality;
    humidity = humidity-Between _ n.humidity;
  }

  -- One hour of an engine whose results are no NaN: the batch that ToRawSensorBatch makes of Next
  -- has the eight sensors in this order, seven of them in their physical ranges: vibration from 0 to
  -- 0.5 m/s², strain to 1000 microstrain, PM2.5 to 100 µg/m³, occupancy and load to 1, water
  -- from 0.3 to 0.3 + 0.4, and humidity from 20 to 100 percent. The temperature, which the engine
  -- does not clamp, is the weather's. All timestamps are the window's end.
  pub next-Fits :
      (e : SensorEngine W G) (id : Text) (meta : PropertyMeta W) (days : W)
      → IsNumeric (next lib e).0
      → let r = (next lib e).0 in
        let batch = to_raw_sensor_batch lib r id meta days in
        Fits (scale r) batch.readings
        × All (λ (q : RawSensorReading W). q.timestamp_ns ≡ batch.window_end_ns) batch.readings
  next-Fits e id meta days n =
      to_raw_sensor_batch-Fits laws lib (next lib e).0 id meta days (next-IsMeasured e n)
