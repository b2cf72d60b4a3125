-- ===== src/Condition/Integrity/Consistency.antt =====
-- CheckCrossConsistency (internal/condition/integrity.go): the score lies in the unit interval.
use twinval_go_backend.Prelude.{
  ℕ, suc, ◌*◌, ◌^◌, ◌≤◌, ◌<◌, inl, inr, List, [], ◌∷◌, map, arith, All, All-append, All-map,
  All_mono, Bool-cases, length, length-append, length-map, if◌then◌else◌,
}
use twinval_go_backend.Prelude.Text.{Text}
use twinval_go_backend.Float.{Float64, IsIeee, IsFinite, IsUnit, fl, ◌≼◌, ◌≺◌, ◌<?◌, ◌≤?◌}
use twinval_go_backend.Float.Order.{
  clamp-IsUnit, fl-IsFinite, fl-IsNum, zero-le-one, le_of_not_lt, sub_nonneg, div_nonneg,
}
use twinval_go_backend.Float.Within.{Within, Within-IsFinite}
use twinval_go_backend.Condition.Types.{RawSensorReading}
use twinval_go_backend.Condition.Groups.{Sorting, group_by, in_order}
use twinval_go_backend.Condition.Groups.Members.{
  SortsStrings, IsGroup, in_order-IsGroup, length-in_order, length-group_by,
}
use twinval_go_backend.Condition.Integrity.{
  mean, spread_of, zone_penalty, sensor_means, zone_penalties, consistency_score,
  check_cross_consistency,
}
use twinval_go_backend.Condition.Integrity.Means.{mean-Within, mean_nonneg}

pub mul_le : (k n b top : ℕ) → k ≤ n → n * b ≤ top → k * b ≤ top
mul_le k n b top h l = grind arith

pub le_mul : (n b : ℕ) → 0 < b → n ≤ n * b
le_mul n b h = grind arith

module _ {W : Type 0} ⦃d : Float64 W⦄ (laws : IsIeee W) where
  open laws use {IsNum-of_le, le_trans, lt-eq-not-le, sub-IsNum'}

  -- The smaller and the larger of two numbers within a bound.
  lower :
      (b : ℕ) (m lo : W)
      → Within b m
      → Within b lo
      → let x = (if m <? lo then m else lo) in Within b x × (x ≼ m)
  lower b m lo p q = elim (Bool-cases (m <? lo)) [
    | inl e ↦ rw e (p, (IsNum-of_le _ _ p.0).1)
    | inr e ↦ rw e (q, le_of_not_lt laws m lo (IsNum-of_le _ _ p.0).1 (IsNum-of_le _ _ q.0).1 e)
  ]

  upper :
      (b : ℕ) (m hi : W)
      → Within b m
      → Within b hi
      → let x = (if hi <? m then m else hi) in Within b x × (m ≼ x)
  upper b m hi p q = elim (Bool-cases (hi <? m)) [
    | inl e ↦ rw e (p, (IsNum-of_le _ _ p.0).1)
    | inr e ↦ rw e (q, le_of_not_lt laws hi m (IsNum-of_le _ _ q.0).1 (IsNum-of_le _ _ p.0).1 e)
  ]

  spread_of_nonneg :
      (b : ℕ) (ms : List W) (lo hi : W)
      → b ≤ 10 ^ 9
      → All (Within b) ms
      → lo ≼ hi
      → Within b lo
      → Within b hi
      → fl 0 ≼ spread_of lo hi ms
  unfolding spread_of
  spread_of_nonneg b [] lo hi h _ le p q =
      sub_nonneg laws lo hi (Within-IsFinite laws b lo h p) (Within-IsFinite laws b hi h q).0 le
  spread_of_nonneg b (m ∷ ms) lo hi h (r, rs) le p q =
      let (p', down) = lower b m lo r p in
      let (q', up) = upper b m hi r q in
      spread_of_nonneg b ms _ _ h rs (le_trans _ _ _ down up) p' q'

  abbrev IsTolerance : W → Type 0
  IsTolerance t = IsFinite t × (fl 0 ≺ t)

  zone_penalty_nonneg :
      (tolerance : W) (b : ℕ) (ms : List W)
      → b ≤ 10 ^ 9
      → IsTolerance tolerance
      → All (Within b) ms
      → All (λ (p : W). fl 0 ≼ p) (zone_penalty tolerance ms)
        × (length (zone_penalty tolerance ms) ≤ 1)
  unfolding zone_penalty
  zone_penalty_nonneg tolerance b [] h t _ = (tt, omega arith)
  zone_penalty_nonneg tolerance b (m ∷ []) h t _ = (tt, omega arith)
  zone_penalty_nonneg tolerance b (m ∷ n ∷ ms) h (f, t) (p, ps) = (
    (
      div_nonneg laws _ tolerance f t
          (spread_of_nonneg b (n ∷ ms) m m h ps (IsNum-of_le _ _ p.0).1 p p),
      tt,
    ),
    omega arith,
  )

  -- Each sensor's mean is within the bound of its readings.
  module _ (lib : Sorting W) (sorts : SortsStrings lib.sort_strings) (b : ℕ) where
    abbrev HasValue : RawSensorReading W → Type 0
    HasValue r = Within b r.value

    group_mean-Within :
        (n : ℕ) (rs : List (RawSensorReading W))
        → n * b ≤ 10 ^ 9
        → n ≤ 10 ^ 9
        → All HasValue rs
        → length rs ≤ n
        → 0 < length rs
        → Within b (mean (map (λ (r : RawSensorReading W). r.value) rs))
    group_mean-Within n [] h l a m e = absurd (omega arith)
    group_mean-Within n (r ∷ rs) h l (p, ps) m e =
        let size = length-map (λ (q : RawSensorReading W). q.value) rs in
        mean-Within laws b r.value _ (rw size (mul_le (suc (length rs)) n b (10 ^ 9) m h))
          (omega (arith, size)) (p, All-map (Within b) _ rs ps)

    sensor_means-Within :
        (rs : List (RawSensorReading W))
        → length rs * b ≤ 10 ^ 9
        → length rs ≤ 10 ^ 9
        → All HasValue rs
        → All (Within b) (sensor_means lib rs)
    unfolding sensor_means
    sensor_means-Within rs h l a = All-map (Within b) _ _ (
        All_mono (λ g v. group_mean-Within (length rs) g.1 h l v.0 v.1 v.2) _
          (in_order-IsGroup HasValue lib.sort_strings _ rs sorts a))

    zone_penalties_nonneg :
        (tolerance : W) (n : ℕ) (zones : List (Text × List (RawSensorReading W)))
        → IsTolerance tolerance
        → n * b ≤ 10 ^ 9
        → n ≤ 10 ^ 9
        → b ≤ 10 ^ 9
        → All (IsGroup HasValue n) zones
        → All (λ (p : W). fl 0 ≼ p) (zone_penalties lib tolerance zones)
          × (length (zone_penalties lib tolerance zones) ≤ length zones)
    unfolding zone_penalties
    zone_penalties_nonneg tolerance n [] t h l c _ = (tt, omega arith)
    zone_penalties_nonneg tolerance n ((zone, rs) ∷ zones) t h l c (g, gs) =
        let means =
          sensor_means-Within rs (mul_le (length rs) n b (10 ^ 9) g.1 h) (omega arith) g.0 in
        let (p, k) = zone_penalty_nonneg tolerance b (sensor_means lib rs) c t means in
        let (ps, ks) = zone_penalties_nonneg tolerance n zones t h l c gs in
        (
          All-append (λ (p : W). fl 0 ≼ p) (zone_penalty tolerance (sensor_means lib rs)) _ p ps,
          omega (
            arith,
            length-append (zone_penalty tolerance (sensor_means lib rs))
                (zone_penalties lib tolerance zones),
          ),
        )

  consistency_score-IsUnit :
      (ps : List W)
      → length ps ≤ 10 ^ 9
      → All (λ (p : W). fl 0 ≼ p) ps
      → IsUnit (consistency_score ps)
  unfolding consistency_score
  consistency_score-IsUnit [] h _ = (zero-le-one laws, fl-IsNum laws 1)
  consistency_score-IsUnit (p ∷ ps) h a = clamp-IsUnit laws _ (
      sub-IsNum' (fl 1) _ (fl-IsFinite laws 1 (omega arith))
        (IsNum-of_le _ _ (mean_nonneg laws p ps h a)).1)

  -- CheckCrossConsistency, with a finite tolerance, of n readings with values from 0.0 to b, n * b at
  -- most 10^9: the score lies from 0.0 to 1.0.
  pub check_cross_consistency-IsUnit :
      (lib : Sorting W) (b : ℕ) (readings : List (RawSensorReading W)) (tolerance : W)
      → SortsStrings lib.sort_strings
      → IsFinite tolerance
      → 0 < b
      → length readings * b ≤ 10 ^ 9
      → b ≤ 10 ^ 9
      → All (λ (r : RawSensorReading W). Within b r.value) readings
      → IsUnit (check_cross_consistency lib readings tolerance)
  unfolding check_cross_consistency
  check_cross_consistency-IsUnit lib b readings tolerance sorts f e h c a =
      let l = le_mul (length readings) b e in
      let zone_of : RawSensorReading W → Text = λ r. r.zone in
      let groups = group_by zone_of readings in
      let zones = in_order lib.sort_strings groups in
      elim (Bool-cases (tolerance ≤? fl 0)) [
        | inl e ↦ rw e (zero-le-one laws, fl-IsNum laws 1)
        | inr e ↦
            let t : fl 0 ≺ tolerance =
              ground (arith, lt-eq-not-le (fl 0) tolerance (fl-IsNum laws 0) f.0, e) in
            let (ps, k) =
              zone_penalties_nonneg lib sorts b tolerance (length readings) zones (f, t) h
                (omega arith) c (in_order-IsGroup _ lib.sort_strings _ readings sorts a) in
            rw e (
              consistency_score-IsUnit (zone_penalties lib tolerance zones)
                (omega (
                  arith,
                  length-in_order lib.sort_strings groups sorts,
                  length-group_by zone_of readings,
                ))
                ps)
      ]
