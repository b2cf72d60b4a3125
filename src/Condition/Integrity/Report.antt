-- ===== src/Condition/Integrity/Report.antt =====
-- RunIntegrityChecks (internal/condition/integrity.go): the whole report.
use twinval_go_backend.Condition.Integrity.Tampering.{check_tamper_few}
use twinval_go_backend.Prelude.{
  ℕ, zero, suc, ◌*◌, ◌%◌, ◌^◌, ◌≤◌, ◌<◌, ◌≡◌, inl, inr, some, List, [], ◌∷◌, arith, All, All-map,
  All_mono, Option-cases, length, length-map,
}
use twinval_go_backend.Prelude.Int.{pos, ◌≤ℤ◌}
use twinval_go_backend.Prelude.Text.{Text}
use twinval_go_backend.Prelude.Maps.{lookup}
use twinval_go_backend.Float.{Float64, IsIeee, IsFinite, IsUnit, fl, ◌⊖◌, ◌≺◌}
use twinval_go_backend.Float.Order.{fl-IsNum, zero-le-one}
use twinval_go_backend.Float.Within.{Within, zero-Within}
use twinval_go_backend.Condition.Types.{
  SensorType, RawSensorReading, RawSensorBatch, Range, ConditioningConfig, IntegrityReport,
  sensor_occupancy, sensor_electrical, sensor_water,
}
use twinval_go_backend.Condition.Groups.{Sorting, group_by, in_order}
use twinval_go_backend.Condition.Groups.Members.{
  SortsStrings, in_order-IsGroup, length-in_order, length-group_by, length-keys,
}
use twinval_go_backend.Condition.Preprocess.Align.{Sorts}
use twinval_go_backend.Condition.Integrity.{
  check_tamper, check_cross_consistency, scores, mean_or_default, times_length, to_int64,
  run_integrity_checks,
}
use twinval_go_backend.Condition.Integrity.Bounds.{check_uptime_continuity-IsUnit}
use twinval_go_backend.Condition.Integrity.Means.{mean_or_default-Within}
use twinval_go_backend.Condition.Integrity.Consistency.{
  mul_le, le_mul, check_cross_consistency-IsUnit,
}

-- The range of a type, if it has one, is finite and not empty.
abbrev pub HasRange : {W : Type 0} ⦃d : Float64 W⦄ → ConditioningConfig W → SensorType → Type 0
HasRange {W} cfg t =
    (r : Range W)
    → lookup t cfg.bounds ≡ some r
    → IsFinite r.low × IsFinite (r.high ⊖ r.low) × (fl 0 ≺ r.high ⊖ r.low)

-- Settings with a weight from 0.0 to 1.0, finite tolerances, and ranges for the three types that
-- Process normalises.
pub record IsSettled {W : Type 0} ⦃d : Float64 W⦄ (cfg : ConditioningConfig W) : Type 0 where
  pub alpha : IsUnit cfg.ema_alpha
  pub tolerances :
      (t : SensorType) (w : W) → lookup t cfg.consistency_tolerances ≡ some w → IsFinite w
  pub occupancy : HasRange cfg sensor_occupancy
  pub electrical : HasRange cfg sensor_electrical
  pub water : HasRange cfg sensor_water

-- n readings with values and calibration ages from 0.0 to b, and small enough numbers of them.
pub record IsModest {W : Type 0} ⦃d : Float64 W⦄ (b : ℕ) (batch : RawSensorBatch W) : Type 0 where
  pub readings :
      All
        (λ (r : RawSensorReading W). Within b r.value × Within b r.calibration_days_ago)
        batch.readings
  pub positive : 0 < b
  pub few : length batch.readings * length batch.readings * length batch.readings * b ≤ 10 ^ 9
  pub bound : b ≤ 10 ^ 9
  pub expected : ℕ
  pub expects : batch.expected_readings_per_sensor ≡ pos expected
  pub few_expected : expected * length batch.readings ≤ 10 ^ 9

pub record IsScored {W : Type 0} ⦃d : Float64 W⦄ (b : ℕ) (r : IntegrityReport W) : Type 0 where
  pub uptime_continuity : IsUnit r.uptime_continuity
  pub cross_sensor_consistency : IsUnit r.cross_sensor_consistency
  pub calibration_recency : Within b r.calibration_recency
  pub tamper_score : IsUnit r.tamper_score

pub few_lem :
    (n b : ℕ)
    → 0 < b
    → n * n * n * b ≤ 10 ^ 9
    → (n * n ≤ 10 ^ 9) × (n * b ≤ 10 ^ 9) × (n ≤ 10 ^ 9) × (n * n * (n * b) ≤ 10 ^ 9)
few_lem zero b p h = omega arith
few_lem (suc n) b p h =
    let m = suc n in
    let whole : m * m * (m * b) ≤ 10 ^ 9 = rw (← assoc m b) h in
    let q : 0 < m * b = grind arith in
    let sq : 0 < m * m = grind arith in
    let s : m * m ≤ m * m * (m * b) = le_mul (m * m) (m * b) q in
    let t : m * b ≤ (m * b) * (m * m) = le_mul (m * b) (m * m) sq in
    let u : m ≤ m * m = le_mul m m (omega arith) in
    (omega arith, omega (arith, comm (m * b) (m * m)), omega arith, whole)
  where
    assoc : (m b : ℕ) → m * m * m * b ≡ m * m * (m * b)
    assoc m b = grind arith

    comm : (x y : ℕ) → x * y ≡ y * x
    comm x y = grind arith

square_le : (k n top : ℕ) → k ≤ n → n * n ≤ top → k * k ≤ top
square_le k n top h l = grind arith

module _ {W : Type 0} ⦃d : Float64 W⦄ (laws : IsIeee W) (lib : Sorting W) (sorts : Sorts W lib)
    (sorts_strings : SortsStrings lib.sort_strings) where
  scores-AreUnit :
      (check : List (RawSensorReading W) → W → W) (limits : List (SensorType × W))
      (groups : List (SensorType × List (RawSensorReading W)))
      → All
          (λ (g : SensorType × List (RawSensorReading W)).
            (w : W) → lookup g.0 limits ≡ some w → IsUnit (check g.1 w))
          groups
      → All (λ (x : W). IsUnit x) (scores check limits groups)
        × (length (scores check limits groups) ≤ length groups)
  unfolding scores
  scores-AreUnit check limits [] _ = (tt, omega arith)
  scores-AreUnit check limits ((t, rs) ∷ groups) (u, us) =
      let (vs, k) = scores-AreUnit check limits groups us in
      elim (Option-cases (lookup t limits)) [
        | inl e ↦ rw (scores, e) (vs, omega arith)
        | inr (w, e) ↦ rw (scores, e) ((u w e, vs), omega arith)
      ]

  mean_score-IsUnit :
      (vs : List W)
      → length vs ≤ 10 ^ 9
      → All (λ (x : W). IsUnit x) vs
      → IsUnit (mean_or_default vs (fl 1))
  mean_score-IsUnit vs h a =
      mean_or_default-Within laws 1 vs (fl 1) (omega arith) h (zero-le-one laws, fl-IsNum laws 1) a

  -- RunIntegrityChecks, under finite tolerances, of a modest batch: the three scores lie from 0.0 to
  -- 1.0, and the mean calibration age from 0.0 to b.
  pub run_integrity_checks-IsScored :
      (b : ℕ) (batch : RawSensorBatch W) (cfg : ConditioningConfig W)
      → IsSettled cfg
      → IsModest b batch
      → IsScored b (run_integrity_checks lib batch cfg)
  unfolding run_integrity_checks
  run_integrity_checks-IsScored b batch cfg c m =
      let n = length batch.readings in
      let type_of : RawSensorReading W → Text = λ r. r.sensor_type in
      let id_of : RawSensorReading W → Text = λ r. r.sensor_id in
      let groups = group_by type_of batch.readings in
      let ordered = in_order lib.sort_strings groups in
      let (square, product, single, _) = few_lem n b m.positive m.few in
      let count = length-in_order lib.sort_strings groups sorts_strings in
      let fewer = length-group_by type_of batch.readings in
      let values = All_mono (λ r q. q.0) batch.readings m.readings in
      let each = in_order-IsGroup _ lib.sort_strings type_of batch.readings sorts_strings values in
      let (cross, cross_few) =
        scores-AreUnit (check_cross_consistency lib) cfg.consistency_tolerances ordered (
          All_mono
            (λ g v t e.
              check_cross_consistency-IsUnit laws lib b g.1 t sorts_strings (c.tolerances g.0 t e)
                m.positive (mul_le (length g.1) n b (10 ^ 9) v.1 product) m.bound v.0)
            ordered each) in
      let (tamper, tamper_few) = scores-AreUnit (check_tamper lib) cfg.tamper_step_limits ordered (
        All_mono
          (λ g v t e.
            check_tamper_few laws lib sorts sorts_strings g.1 t
              (square_le (length g.1) n (10 ^ 9) v.1 square))
          ordered each) in
      let ages = length-map (λ (r : RawSensorReading W). r.calibration_days_ago) batch.readings in
      record {
        uptime_continuity = check_uptime_continuity-IsUnit laws n _ (
            expected_le b batch m (length-keys (group_by id_of batch.readings))
              (length-group_by id_of batch.readings));
        cross_sensor_consistency = mean_score-IsUnit _ (omega arith) cross;
        calibration_recency =
            mean_or_default-Within laws b _ (fl 0) (rw ages product) (omega arith)
              (zero-Within laws b)
              (All-map (Within b) _ batch.readings
                (All_mono (λ r q. q.1) batch.readings m.readings));
        tamper_score = mean_score-IsUnit _ (omega arith) tamper;
      }
    where
      at_most : (e k n : ℕ) → k ≤ n → e * n ≤ 10 ^ 9 → e * k ≤ 10 ^ 9
      at_most e k n h l = grind arith

      small : (p : ℕ) → p ≤ 10 ^ 9 → to_int64 (p % 2 ^ 64) ≤ℤ pos (10 ^ 9)
      small p h = ground arith

      small_product : (e k n : ℕ) → k ≤ n → e * n ≤ 10 ^ 9 → times_length (pos e) k ≤ℤ pos (10 ^ 9)
      small_product e k n h l = small (e * k) (at_most e k n h l)

      expected_le :
          (b : ℕ) (batch : RawSensorBatch W) (m : IsModest b batch) {k g : ℕ}
          → k ≡ g
          → g ≤ length batch.readings
          → times_length batch.expected_readings_per_sensor k ≤ℤ pos (10 ^ 9)
      expected_le b batch m e h =
          rw m.expects (small_product m.expected _ (length batch.readings) (rw e h) m.few_expected)
