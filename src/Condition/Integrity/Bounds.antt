-- ===== src/Condition/Integrity/Bounds.antt =====
-- The integrity scores that lie in the unit interval.
use twinval_go_backend.Prelude.{
  ℕ, zero, suc, ◌*◌, ◌^◌, ◌≤◌, ◌≡◌, inl, inr, false, List, [], ◌∷◌, arith, Bool-cases, ◌==◌,
}
use twinval_go_backend.Prelude.Int.{ℤ, pos, negsuc, ◌≤ℤ◌}
use twinval_go_backend.Prelude.Text.{Text}
use twinval_go_backend.Float.{Float64, IsIeee, IsFinite, IsUnit, fl, ◌⊖◌, ◌⊘◌, ◌≺◌, ◌<?◌, ◌≤?◌}
use twinval_go_backend.Float.Order.{
  clamp-IsUnit, complement-IsUnit, fl-IsFinite, fl-IsNum, zero-le-one, ratio-IsUnit,
}
use twinval_go_backend.Condition.Types.{RawSensorReading}
use twinval_go_backend.Condition.Groups.{Sorting, group_by, in_order}
use twinval_go_backend.Condition.Preprocess.{normalise}
use twinval_go_backend.Condition.Integrity.{
  check_uptime_continuity, tamper_from, tamper_series, tamper_counts, tamper_score_of, check_tamper,
}

-- No more flags than pairs.
abbrev AreCounts : ℕ × ℕ → Type 0
AreCounts c = c.0 ≤ c.1

module _ {W : Type 0} ⦃d : Float64 W⦄ where
  tamper_from-AreCounts :
      (limit previous : W) (rs : List (RawSensorReading W)) (c : ℕ × ℕ)
      → AreCounts c
      → AreCounts (tamper_from limit previous rs c)
  unfolding tamper_from
  tamper_from-AreCounts limit previous [] c h = h
  tamper_from-AreCounts limit previous (r ∷ rs) (flags, pairs) h =
      tamper_from-AreCounts limit r.value rs _ (ground arith)

  tamper_series-AreCounts :
      (limit : W) (rs : List (RawSensorReading W)) (c : ℕ × ℕ)
      → AreCounts c
      → AreCounts (tamper_series limit rs c)
  unfolding tamper_series
  tamper_series-AreCounts limit [] c h = h
  tamper_series-AreCounts limit (r ∷ rs) c h = tamper_from-AreCounts limit r.value rs c h

  tamper_counts-AreCounts :
      (lib : Sorting W) (limit : W) (groups : List (Text × List (RawSensorReading W))) (c : ℕ × ℕ)
      → AreCounts c
      → AreCounts (tamper_counts lib limit groups c)
  unfolding tamper_counts
  tamper_counts-AreCounts lib limit [] c h = h
  tamper_counts-AreCounts lib limit ((id, series) ∷ groups) c h =
      tamper_counts-AreCounts lib limit groups _
        (tamper_series-AreCounts limit (lib.sort_by_timestamp series) c h)

module _ {W : Type 0} ⦃d : Float64 W⦄ (laws : IsIeee W) where
  open laws use {IsNum-of_le, lt-eq-not-le, decimal_mono, decimal_lt, div-IsNum, sub-IsNum}

  one-IsUnit : IsUnit (fl {W = W} 1)
  one-IsUnit = (zero-le-one laws, fl-IsNum laws 1)

  zero-IsUnit : IsUnit (fl {W = W} 0)
  zero-IsUnit = (fl-IsNum laws 0, zero-le-one laws)

  count_pos : (n : ℕ) → suc n ≤ 10 ^ 9 → fl {W = W} 0 ≺ fl (suc n)
  count_pos n h = decimal_lt 0 (suc n * 10_000) (omega arith) (omega arith)

  tamper_score_of-IsUnit :
      (flags pairs : ℕ)
      → flags ≤ pairs
      → pairs ≤ 10 ^ 9
      → IsUnit (tamper_score_of {W = W} (flags, pairs))
  unfolding tamper_score_of
  tamper_score_of-IsUnit flags zero h k = one-IsUnit
  tamper_score_of-IsUnit flags (suc n) h k =
      let u : IsUnit (fl {W = W} 1 ⊖ fl flags ⊘ fl (suc n)) = complement-IsUnit laws _ (
        ratio-IsUnit laws (fl flags) (fl (suc n)) (fl-IsFinite laws (suc n) k) (count_pos n k)
          (decimal_mono 0 (flags * 10_000) (omega arith))
          (decimal_mono (flags * 10_000) (suc n * 10_000) (omega arith))) in
      let some_pairs : (suc n == 0) ≡ false = ground arith in
      elim (Bool-cases (fl 1 ⊖ fl flags ⊘ fl (suc n) <? fl {W = W} 0)) [
        | inl e ↦ rw (some_pairs, e) zero-IsUnit
        | inr e ↦ rw (some_pairs, e) u
      ]

  -- CheckTamper, on at most 10^9 pairs: the score lies in the unit interval, although the code tests
  -- for the lower bound only, since no series has more flags than pairs.
  pub check_tamper-IsUnit :
      (lib : Sorting W) (readings : List (RawSensorReading W)) (step_limit : W)
      → (tamper_counts lib step_limit
          (in_order lib.sort_strings (group_by (λ (r : RawSensorReading W). r.sensor_id) readings))
          (0, 0)).1
        ≤ 10 ^ 9
      → IsUnit (check_tamper lib readings step_limit)
  unfolding check_tamper
  check_tamper-IsUnit lib readings step_limit h = elim (Bool-cases (step_limit ≤? fl 0)) [
    | inl e ↦ rw e one-IsUnit
    | inr e ↦ rw e (
        tamper_score_of-IsUnit _ _
          (tamper_counts-AreCounts lib step_limit
            (in_order lib.sort_strings
              (group_by (λ (r : RawSensorReading W). r.sensor_id) readings))
            (0, 0) (omega arith))
          h)
  ]

  -- CheckUptimeContinuity, for a received count that is not negative and an expectation of at most
  -- 10^9 readings (also none, or a negative one): the score lies in the unit interval.
  pub check_uptime_continuity-IsUnit :
      (received : ℕ) (expected : ℤ)
      → expected ≤ℤ pos (10 ^ 9)
      → IsUnit (check_uptime_continuity {W = W} (pos received) expected)
  unfolding check_uptime_continuity
  check_uptime_continuity-IsUnit received (pos zero) h = one-IsUnit
  check_uptime_continuity-IsUnit received (pos (suc n)) h = clamp-IsUnit laws _ (
      div-IsNum _ _ (fl-IsNum laws received) (fl-IsFinite laws (suc n) (omega arith))
        (count_pos n (omega arith)))
  check_uptime_continuity-IsUnit received (negsuc n) h = one-IsUnit

  -- Normalise of a finite value, with a finite lower bound and a difference of the bounds that is
  -- finite and positive: the result lies in the unit interval.
  pub normalise-IsUnit :
      (value lo hi : W)
      → IsFinite value
      → IsFinite lo
      → IsFinite (hi ⊖ lo) × (fl 0 ≺ hi ⊖ lo)
      → IsUnit (normalise value lo hi)
  unfolding normalise
  normalise-IsUnit value lo hi fv fl' fd = elim (Bool-cases (hi ≤? lo)) [
    | inl e ↦ rw e zero-IsUnit
    | inr e ↦ rw e (clamp-IsUnit laws _ (div-IsNum _ _ (sub-IsNum value lo fv.0 fl') fd.0 fd.1))
  ]
