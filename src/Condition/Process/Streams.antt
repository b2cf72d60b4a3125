-- ===== src/Condition/Process/Streams.antt =====
-- The smoothed readings, the snapshot and its means (internal/condition/condition.go) within bounds.
use twinval_go_backend.Prelude.{
  ℕ, suc, ◌+◌, ◌*◌, ◌^◌, ◌≤◌, ◌<◌, ◌≡◌, refl, inl, inr, Option, none, some, List, [], ◌∷◌, map,
  arith, All, All-append, All-map, All_mono, All-perm, Bool-cases, length, length-append,
  length-map, length-perm,
}
use twinval_go_backend.Prelude.Int.{ℤ, leb_ℤ}
use twinval_go_backend.Prelude.Text.{Text}
use twinval_go_backend.Prelude.Maps.{lookup, keys, lookup-All}
use twinval_go_backend.Float.{Float64, IsIeee, IsUnit, fl}
use twinval_go_backend.Float.Within.{Within, Within_mono, zero-Within}
use twinval_go_backend.Condition.Types.{SensorType, RawSensorReading}
use twinval_go_backend.Condition.Groups.{Sorting, group_by, in_order, values_at}
use twinval_go_backend.Condition.Groups.Members.{
  SortsStrings, Fits, in_order-IsGroup, length-in_order, length-group_by, append_at-Fits,
  group_by-Fits, values_at-Fits,
}
use twinval_go_backend.Condition.Preprocess.{denoise, up_to, last_value, align_timestamps}
use twinval_go_backend.Condition.Preprocess.Align.{Sorts}
use twinval_go_backend.Condition.Preprocess.Smooth.{denoise-Within}
use twinval_go_backend.Condition.Integrity.Consistency.{mul_le}
use twinval_go_backend.Condition.Integrity.Means.{mean_or_default-Within}
use twinval_go_backend.Condition.Process.{
  with_values, denoise_series, flatten, denoise_all_streams, type_of, by_type_onto,
  group_snapshot_by_type, mean_or_zero,
}

module _ {W : Type 0} ⦃d : Float64 W⦄ where
  abbrev pub HasValue : ℕ → RawSensorReading W → Type 0
  HasValue n r = Within n r.value

  with_values-All :
      (P : W → Type 0) (rs : List (RawSensorReading W)) (vs : List W)
      → All (λ (r : RawSensorReading W). P r.value) rs
      → All P vs
      → All (λ (r : RawSensorReading W). P r.value) (with_values rs vs)
        × (length (with_values rs vs) ≡ length rs)
  with_values-All P [] vs _ _ = (tt, omega arith)
  with_values-All P (r ∷ rs) [] p _ = (p, omega arith)
  with_values-All P (r ∷ rs) (v ∷ vs) (p, ps) (q, qs) =
      let (a, e) = with_values-All P rs vs ps qs in ((q, a), omega (arith, e))

  flatten-All :
      (P : RawSensorReading W → Type 0) (n : ℕ) (rss : List (List (RawSensorReading W)))
      → All (λ (rs : List (RawSensorReading W)). All P rs × (length rs ≤ n)) rss
      → All P (flatten rss) × (length (flatten rss) ≤ length rss * n)
  flatten-All P n [] _ = (tt, omega arith)
  flatten-All P n (rs ∷ rss) ((p, h), ps) =
      let (a, k) = flatten-All P n rss ps in
      (
        All-append P rs (flatten rss) p a,
        total n (length rss) _ _ _ h k (length-append rs (flatten rss)),
      )
    where
      total : (n k a b c : ℕ) → a ≤ n → b ≤ k * n → c ≡ a + b → c ≤ suc k * n
      total n k a b c h l e = grind arith

  up_to-All :
      (P : RawSensorReading W → Type 0) (as_of : ℤ) (rs : List (RawSensorReading W))
      → All P rs
      → All P (up_to as_of rs) × (length (up_to as_of rs) ≤ length rs)
  unfolding up_to
  up_to-All P as_of [] _ = (tt, omega arith)
  up_to-All P as_of (r ∷ rs) (p, ps) =
      let (a, k) = up_to-All P as_of rs ps in
      elim (Bool-cases (leb_ℤ r.timestamp_ns as_of)) [
        | inl e ↦ rw (up_to, e) ((p, a), omega arith)
        | inr e ↦ rw (up_to, e) (a, omega arith)
      ]

  last_value-All :
      (P : W → Type 0) (v : W) (rs : List (RawSensorReading W))
      → P v
      → All (λ (r : RawSensorReading W). P r.value) rs
      → P (last_value v rs)
  unfolding last_value
  last_value-All P v [] p _ = p
  last_value-All P v (r ∷ rs) p (q, qs) = last_value-All P r.value rs q qs

module _ {W : Type 0} ⦃d : Float64 W⦄ (laws : IsIeee W) (lib : Sorting W) (sorts : Sorts W lib)
    (sorts_strings : SortsStrings lib.sort_strings) where
  denoise_series-Within :
      (alpha : W) (b n : ℕ) (rs : List (RawSensorReading W))
      → IsUnit alpha
      → n * b ≤ 10 ^ 9
      → length rs ≤ n
      → 0 < length rs
      → All (HasValue b) rs
      → All (HasValue (n * b)) (denoise_series alpha rs) × (length (denoise_series alpha rs) ≤ n)
  denoise_series-Within alpha b n rs u h k e a =
      let values = map (λ (r : RawSensorReading W). r.value) rs in
      let size : length values ≡ length rs = length-map (λ (r : RawSensorReading W). r.value) rs in
      let smoothed =
        denoise-Within laws alpha b values u (rw size (mul_le (length rs) n b (10 ^ 9) k h))
          (All-map (Within b) _ rs a) in
      let (p, q) =
        with_values-All (Within (n * b)) rs (denoise values alpha)
          (All_mono (λ r v. Within_mono laws b (n * b) r.value (one_le b n (omega arith)) v) rs a)
          (All_mono
            (λ v w.
              Within_mono laws (length values * b) (n * b) v
                (rw size (mul_le (length rs) n b (n * b) k (omega arith))) w)
            (denoise values alpha) smoothed) in
      (p, omega (arith, q))
    where
      one_le : (b n : ℕ) → 0 < n → b ≤ n * b
      one_le b n h = grind arith

  -- The smoothed readings, of which there are at most n * n.
  pub denoise_all_streams-Within :
      (alpha : W) (b : ℕ) (rs : List (RawSensorReading W))
      → let n = length rs in
        IsUnit alpha
        → n * b ≤ 10 ^ 9
        → All (HasValue b) rs
        → All (HasValue (n * b)) (denoise_all_streams lib rs alpha)
          × (length (denoise_all_streams lib rs alpha) ≤ n * n)
  unfolding denoise_all_streams
  denoise_all_streams-Within alpha b rs u h a =
      let n = length rs in
      let id_of : RawSensorReading W → Text = λ r. r.sensor_id in
      let groups = group_by id_of rs in
      let ordered = in_order lib.sort_strings groups in
      let each = in_order-IsGroup (HasValue b) lib.sort_strings id_of rs sorts_strings a in
      let smooth_group : Text × List (RawSensorReading W) → List (RawSensorReading W) =
        λ g. denoise_series alpha (lib.sort_by_timestamp g.1) in
      let (p, q) = flatten-All (HasValue (n * b)) n (map smooth_group ordered) (
        All-map _ smooth_group ordered (
          All_mono
            (λ g v.
              let s = sorts.permutes g.1 in
              let e = length-perm s in
              denoise_series-Within alpha b n (lib.sort_by_timestamp g.1) u h
                (omega (arith, e, v.1)) (omega (arith, e, v.2)) (All-perm (HasValue b) s v.0))
            ordered each)) in
      (
        p,
        square _ n _ q (
            omega (
              arith,
              length-map smooth_group ordered,
              length-in_order lib.sort_strings groups sorts_strings,
              length-group_by id_of rs,
            )),
      )
    where
      square : (c n k : ℕ) → c ≤ k * n → k ≤ n → c ≤ n * n
      square c n k h l = grind arith

  pub align_timestamps-Within :
      (m n : ℕ) (rs : List (RawSensorReading W)) (as_of : ℤ)
      → All (HasValue m) rs
      → length rs ≤ n
      → let snapshot = align_timestamps lib (fl 0) rs as_of in
        All (λ (e : Text × W). Within m e.1) snapshot × (length snapshot ≤ n)
  unfolding align_timestamps
  align_timestamps-Within m n rs as_of a h =
      let id_of : RawSensorReading W → Text = λ r. r.sensor_id in
      let (p, k) = up_to-All (HasValue m) as_of rs a in
      let groups = group_by id_of (up_to as_of rs) in
      let newest : Text × List (RawSensorReading W) → Text × W =
        λ g. (g.0, last_value (fl 0) (lib.sort_by_timestamp g.1)) in
      (
        All-map (λ (e : Text × W). Within m e.1) newest groups
            (All_mono
              (λ g v.
                last_value-All (Within m) (fl 0) (lib.sort_by_timestamp g.1) (zero-Within laws m)
                  (All-perm (HasValue m) (sorts.permutes g.1) v.0))
              groups (group_by-Fits (HasValue m) id_of (up_to as_of rs) p)),
        omega (arith, length-map newest groups, length-group_by id_of (up_to as_of rs)),
      )

  by_type_onto-Fits :
      (m : ℕ) (rs : List (RawSensorReading W)) (snapshot : List (Text × W)) (ids : List Text)
      (k : ℕ) (g : List (SensorType × List W))
      → All (λ (e : Text × W). Within m e.1) snapshot
      → All (Fits (Within m) k) g
      → All (Fits (Within m) (k + length ids)) (by_type_onto rs snapshot g ids)
  unfolding by_type_onto
  by_type_onto-Fits m rs snapshot [] k g a f = All_mono (λ e q. (q.0, omega (arith, q.1))) g f
  by_type_onto-Fits m rs snapshot (id ∷ ids) k g a f =
      All_mono (λ e q. (q.0, omega (arith, q.1))) _
        (by_type_onto-Fits m rs snapshot ids (suc k) _ a (
          append_at-Fits (Within m) k (type_of id rs []) (value_of (lookup id snapshot)) g
            (found (lookup id snapshot) (lookup-All (Within m) id snapshot a)) f))
    where
      value_of : Option W → W
      value_of o = elim o [ none ↦ fl 0 | some v ↦ v ]

      found : (o : Option W) → ((v : W) → o ≡ some v → Within m v) → Within m (value_of o)
      found none h = zero-Within laws m
      found (some v) h = h v refl

  -- The mean over the sensors of a type.
  pub snapshot_mean-Within :
      (m n : ℕ) (rs : List (RawSensorReading W)) (snapshot : List (Text × W)) (t : SensorType)
      → n * m ≤ 10 ^ 9
      → n ≤ 10 ^ 9
      → All (λ (e : Text × W). Within m e.1) snapshot
      → length snapshot ≤ n
      → Within m (mean_or_zero (values_at t (group_snapshot_by_type lib rs snapshot)))
  unfolding group_snapshot_by_type
  snapshot_mean-Within m n rs snapshot t h l a k =
      let ids = lib.sort_strings (keys snapshot) in
      let (p, q) =
        values_at-Fits (Within m) (0 + length ids) t _
          (by_type_onto-Fits m rs snapshot ids 0 [] a tt) in
      let size : length ids ≤ n = omega (
        arith,
        length-perm (sorts_strings.permutes (keys snapshot)),
        length-map (λ (e : Text × W). e.0) snapshot,
      ) in
      mean_or_default-Within laws m _ (fl 0) (mul_le _ n m (10 ^ 9) (omega (arith, q, size)) h)
        (omega (arith, q, size)) (zero-Within laws m) p
