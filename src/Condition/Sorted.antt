-- ===== src/Condition/Sorted.antt =====
-- An insertion sort by the timestamp, which keeps the promises of package sort: the hypothesis on
-- package sort can be met.
use mathlib.Core.List.{Memᴰ, Permᴰ}
use twinval_go_backend.Prelude.{
  ◌≡◌, inl, inr, refl, true, false, List, [], ◌∷◌, arith, Bool-cases, perm-mem, if◌then◌else◌,
}
use twinval_go_backend.Prelude.Int.{◌≤ℤ◌, leb_ℤ}
use twinval_go_backend.Condition.Types.{RawSensorReading}
use twinval_go_backend.Condition.Groups.{Sorting}
use twinval_go_backend.Condition.Preprocess.Align.{Ascending, Sorts}

module _ {W : Type 0} where
  insert_reading : RawSensorReading W → List (RawSensorReading W) → List (RawSensorReading W)
  insert_reading r [] = r ∷ []
  insert_reading r (s ∷ ss) =
      let rest = insert_reading r ss in
      if leb_ℤ r.timestamp_ns s.timestamp_ns then r ∷ s ∷ ss else s ∷ rest

  unfoldable pub insertion_sort : List (RawSensorReading W) → List (RawSensorReading W)
  unfolding insert_reading
  insertion_sort [] = []
  insertion_sort (r ∷ rs) = insert_reading r (insertion_sort rs)

  same-perm : (rs : List (RawSensorReading W)) → Permᴰ rs rs
  same-perm [] = Permᴰ.nil
  same-perm (r ∷ rs) = Permᴰ.cons refl (same-perm rs)

  insert_reading-perm :
      (r : RawSensorReading W) (rs : List (RawSensorReading W))
      → Permᴰ (insert_reading r rs) (r ∷ rs)
  unfolding insert_reading
  insert_reading-perm r [] = same-perm (r ∷ [])
  insert_reading-perm r (s ∷ ss) = elim (Bool-cases (leb_ℤ r.timestamp_ns s.timestamp_ns)) [
    | inl e ↦ rw (insert_reading, e) (same-perm (r ∷ s ∷ ss))
    | inr e ↦
        rw (insert_reading, e)
          (Permᴰ.trans (Permᴰ.cons refl (insert_reading-perm r ss))
            (Permᴰ.trans (Permᴰ.swap refl refl) (same-perm (r ∷ s ∷ ss))))
  ]

  insert_reading-Ascending :
      (r : RawSensorReading W) (rs : List (RawSensorReading W))
      → Ascending rs
      → Ascending (insert_reading r rs)
  unfolding insert_reading
  insert_reading-Ascending r [] h = (λ s m. elim m [ ], tt)
  insert_reading-Ascending r (s ∷ ss) (below, h) =
      elim (Bool-cases (leb_ℤ r.timestamp_ns s.timestamp_ns)) [
        | inl e ↦ rw (insert_reading, e) (first e, (below, h))
        | inr e ↦ rw (insert_reading, e) (later e, insert_reading-Ascending r ss h)
      ]
    where
      first :
          leb_ℤ r.timestamp_ns s.timestamp_ns ≡ true
          → (t : RawSensorReading W) → Memᴰ t (s ∷ ss)
          → r.timestamp_ns ≤ℤ t.timestamp_ns
      first e t (Memᴰ.head q) = rw q (ground arith)
      first e t (Memᴰ.tail m) = ground (arith, below t m)

      later :
          leb_ℤ r.timestamp_ns s.timestamp_ns ≡ false
          → (t : RawSensorReading W) → Memᴰ t (insert_reading r ss)
          → s.timestamp_ns ≤ℤ t.timestamp_ns
      later e t m = elim (perm-mem (insert_reading-perm r ss) m) [
        | Memᴰ.head q ↦ rw q (ground arith)
        | Memᴰ.tail n ↦ below t n
      ]

  insertion_sort-perm : (rs : List (RawSensorReading W)) → Permᴰ (insertion_sort rs) rs
  unfolding insertion_sort
  insertion_sort-perm [] = Permᴰ.nil
  insertion_sort-perm (r ∷ rs) =
      Permᴰ.trans (insert_reading-perm r (insertion_sort rs))
        (Permᴰ.cons refl (insertion_sort-perm rs))

  insertion_sort-Ascending : (rs : List (RawSensorReading W)) → Ascending (insertion_sort rs)
  unfolding insertion_sort
  insertion_sort-Ascending [] = tt
  insertion_sort-Ascending (r ∷ rs) =
      insert_reading-Ascending r (insertion_sort rs) (insertion_sort-Ascending rs)

  -- sort.Strings is left as it is: no promise is asked of it here.
  abbrev pub insertion : Sorting W
  insertion = record { sort_strings = λ ids. ids; sort_by_timestamp = insertion_sort }

  pub insertion-Sorts : Sorts W insertion
  insertion-Sorts = record { permutes = insertion_sort-perm; ascends = insertion_sort-Ascending }
