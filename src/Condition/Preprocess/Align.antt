-- ===== src/Condition/Preprocess/Align.antt =====
-- AlignTimestamps (internal/condition/preprocess.go) against the newest reading of each sensor.
use mathlib.Core.Option
use mathlib.Core.List.{Memᴰ, Permᴰ}
use mathlib.Core.List.Permᴰ
use twinval_go_backend.Prelude.{
  ◌≡◌, ◌⊎◌, inl, inr, refl, sym, ap, ◌∙◌, none, some, List, [], ◌∷◌, arith, keep, keep-mem,
  mem-keep, perm-mem,
}
use twinval_go_backend.Prelude.Int.{ℤ, ◌≤ℤ◌, leb_ℤ}
use twinval_go_backend.Prelude.Text.{Text, text_eq, text_eq_iff, text_eq_refl}
use twinval_go_backend.Prelude.Maps.{lookup, lookup-map}
use twinval_go_backend.Condition.Types.{RawSensorReading}
use twinval_go_backend.Condition.Groups.{Sorting}
use twinval_go_backend.Condition.Groups.Laws.{as_group, lookup-group_by}
use twinval_go_backend.Condition.Preprocess.{up_to, last_value, align_timestamps}

module _ {W : Type 0} where
  -- No reading is older than one before it.
  abbrev pub Ascending : List (RawSensorReading W) → Type 0
  Ascending [] = Unit
  Ascending (r ∷ rs) =
      ((s : RawSensorReading W) → Memᴰ s rs → r.timestamp_ns ≤ℤ s.timestamp_ns) × Ascending rs

-- What package sort promises of sort.Slice by the timestamp.
pub record Sorts (W : Type 0) (lib : Sorting W) : Type 0 where
  pub permutes : (rs : List (RawSensorReading W)) → Permᴰ (lib.sort_by_timestamp rs) rs
  pub ascends : (rs : List (RawSensorReading W)) → Ascending (lib.sort_by_timestamp rs)

module _ {W : Type 0} where
  -- A reading of the sensor at or before the time.
  pub record IsCandidate (id : Text) (as_of : ℤ) (readings : List (RawSensorReading W))
      (r : RawSensorReading W) : Type 0 where
    pub among : Memᴰ r readings
    pub sensor : r.sensor_id ≡ id
    pub in_time : r.timestamp_ns ≤ℤ as_of

  -- And no other such reading is newer.
  pub record IsNewest (id : Text) (as_of : ℤ) (readings : List (RawSensorReading W))
      (r : RawSensorReading W) : Type 0 where
    pub candidate : IsCandidate id as_of readings r
    pub newest :
        (s : RawSensorReading W)
        → IsCandidate id as_of readings s
        → s.timestamp_ns ≤ℤ r.timestamp_ns

  -- The last reading of a series in order is the newest.
  last_of :
      (v : W) (r : RawSensorReading W) (rs : List (RawSensorReading W))
      → Ascending (r ∷ rs)
      → (q : RawSensorReading W) × (last_value v (r ∷ rs) ≡ q.value)
        × Memᴰ q (r ∷ rs)
        × ((s : RawSensorReading W) → Memᴰ s (r ∷ rs) → s.timestamp_ns ≤ℤ q.timestamp_ns)
  unfolding last_value
  last_of v r [] h = (r, refl, Memᴰ.head refl, only)
    where
      only : (s : RawSensorReading W) → Memᴰ s (r ∷ []) → s.timestamp_ns ≤ℤ r.timestamp_ns
      only s (Memᴰ.head e) = rw e (omega arith)
      only s (Memᴰ.tail m) = elim m [ ]
  last_of v r (t ∷ ts) (below, h) =
      let (q, e, m, top) = last_of r.value t ts h in (q, e, Memᴰ.tail m, all_below q m top)
    where
      all_below :
          (q : RawSensorReading W)
          → Memᴰ q (t ∷ ts)
          → ((s : RawSensorReading W) → Memᴰ s (t ∷ ts) → s.timestamp_ns ≤ℤ q.timestamp_ns)
          → (s : RawSensorReading W) → Memᴰ s (r ∷ t ∷ ts)
          → s.timestamp_ns ≤ℤ q.timestamp_ns
      all_below q m top s (Memᴰ.head e) = rw e (below q m)
      all_below q m top s (Memᴰ.tail n) = top s n

  up_to-eq-keep :
      (as_of : ℤ) (rs : List (RawSensorReading W))
      → up_to as_of rs ≡ keep (λ (r : RawSensorReading W). leb_ℤ r.timestamp_ns as_of) rs
  unfolding up_to
  up_to-eq-keep as_of [] = refl
  up_to-eq-keep as_of (r ∷ rs) = rw (up_to-eq-keep as_of rs) refl

  abbrev candidates : Text → ℤ → List (RawSensorReading W) → List (RawSensorReading W)
  candidates id as_of rs =
      keep (λ (r : RawSensorReading W). text_eq id r.sensor_id)
        (keep (λ (r : RawSensorReading W). leb_ℤ r.timestamp_ns as_of) rs)

  candidates-mem :
      (id : Text) (as_of : ℤ) (rs : List (RawSensorReading W)) (r : RawSensorReading W)
      → IsCandidate id as_of rs r
      → Memᴰ r (candidates id as_of rs)
  candidates-mem id as_of rs r c =
      keep-mem _ r _ (keep-mem _ r rs c.among (ground (arith, c.in_time)))
        (rw c.sensor (text_eq_refl id))

  mem-candidates :
      (id : Text) (as_of : ℤ) (rs : List (RawSensorReading W)) (r : RawSensorReading W)
      → Memᴰ r (candidates id as_of rs)
      → IsCandidate id as_of rs r
  mem-candidates id as_of rs r m =
      let (n, e) = mem-keep _ r _ m in
      let (k, f) = mem-keep _ r rs n in
      record { among = k; sensor = sym ((text_eq_iff id r.sensor_id).0 e); in_time = ground arith }

  aligned :
      (lib : Sorting W) (zero : W) (readings : List (RawSensorReading W)) (as_of : ℤ) (id : Text)
      → lookup id (align_timestamps lib zero readings as_of)
        ≡ Option.map
            (λ g. last_value zero (lib.sort_by_timestamp g))
            (as_group (candidates id as_of readings))
  unfolding align_timestamps
  aligned lib zero readings as_of id =
      lookup-map (λ g. last_value zero (lib.sort_by_timestamp g)) id _
      ∙ ap (Option.map (λ g. last_value zero (lib.sort_by_timestamp g))) (
          lookup-group_by (λ (r : RawSensorReading W). r.sensor_id) id (up_to as_of readings)
          ∙ ap (λ rs. as_group (keep (λ (r : RawSensorReading W). text_eq id r.sensor_id) rs))
              (up_to-eq-keep as_of readings))

  -- The last of a group after sorting, in terms of the group.
  newest_of :
      (v : W) (ys : List (RawSensorReading W)) (r : RawSensorReading W)
      (rs : List (RawSensorReading W))
      → Permᴰ ys (r ∷ rs)
      → Ascending ys
      → (q : RawSensorReading W) × (last_value v ys ≡ q.value)
        × Memᴰ q (r ∷ rs)
        × ((s : RawSensorReading W) → Memᴰ s (r ∷ rs) → s.timestamp_ns ≤ℤ q.timestamp_ns)
  newest_of v [] r rs p h = absurd (elim (perm-mem (Permᴰ.symm p) (Memᴰ.head refl)) [ ])
  newest_of v (y ∷ ys) r rs p h =
      let (q, e, m, top) = last_of v y ys h in
      (q, e, perm-mem p m, λ s n. top s (perm-mem (Permᴰ.symm p) n))

  IsNewest-entry :
      (lib : Sorting W) (zero : W) (readings : List (RawSensorReading W)) (as_of : ℤ) (id : Text)
      (group : List (RawSensorReading W))
      → Sorts W lib
      → candidates id as_of readings ≡ group
      → let entry = Option.map (λ g. last_value zero (lib.sort_by_timestamp g)) (as_group group) in
        ((entry ≡ none) × ((r : RawSensorReading W) → ¬ IsCandidate id as_of readings r))
        ⊎ ((r : RawSensorReading W) × (entry ≡ some r.value) × IsNewest id as_of readings r)
  IsNewest-entry lib zero readings as_of id [] law e =
      inl (refl, λ r c. elim (rw e at (candidates-mem id as_of readings r c)) [ ])
  IsNewest-entry lib zero readings as_of id (x ∷ xs) law e =
      let (q, same, m, top) =
        newest_of zero (lib.sort_by_timestamp (x ∷ xs)) x xs (law.permutes (x ∷ xs))
          (law.ascends (x ∷ xs)) in
      inr (
        q,
        ap some same,
        record {
          candidate = mem-candidates id as_of readings q (rw e m);
          newest = λ s c. top s (rw e at (candidates-mem id as_of readings s c));
        },
      )

  -- AlignTimestamps, for each sensor: if no reading of the sensor is at or before the time asked
  -- for, the result has no entry for it; otherwise the entry is the value of such a reading that no
  -- other such reading is newer than.
  pub align_timestamps-IsNewest :
      (lib : Sorting W) (zero : W) (readings : List (RawSensorReading W)) (as_of : ℤ) (id : Text)
      → Sorts W lib
      → let entry = lookup id (align_timestamps lib zero readings as_of) in
        ((entry ≡ none) × ((r : RawSensorReading W) → ¬ IsCandidate id as_of readings r))
        ⊎ ((r : RawSensorReading W) × (entry ≡ some r.value) × IsNewest id as_of readings r)
  align_timestamps-IsNewest lib zero readings as_of id law =
      rw (aligned lib zero readings as_of id)
        (IsNewest-entry lib zero readings as_of id (candidates id as_of readings) law refl)
