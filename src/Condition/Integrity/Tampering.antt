-- ===== src/Condition/Integrity/Tampering.antt =====
-- checkTamper (internal/condition/integrity.go) on a batch of few readings.
use twinval_go_backend.Prelude.{
  ℕ, suc, ◌+◌, ◌*◌, ◌^◌, ◌≤◌, ◌≡◌, List, [], ◌∷◌, arith, All, All_mono, length, length-perm,
}
use twinval_go_backend.Prelude.Text.{Text}
use twinval_go_backend.Float.{Float64, IsIeee, IsUnit}
use twinval_go_backend.Condition.Types.{RawSensorReading}
use twinval_go_backend.Condition.Groups.{Sorting, group_by, in_order}
use twinval_go_backend.Condition.Groups.Members.{
  SortsStrings, in_order-IsGroup, length-in_order, length-group_by,
}
use twinval_go_backend.Condition.Preprocess.Align.{Sorts}
use twinval_go_backend.Condition.Integrity.{tamper_from, tamper_series, tamper_counts, check_tamper}
use twinval_go_backend.Condition.Integrity.Bounds.{check_tamper-IsUnit}

module _ {W : Type 0} ⦃d : Float64 W⦄ where
  tamper_from_pairs :
      (limit previous : W) (rs : List (RawSensorReading W)) (c : ℕ × ℕ)
      → (tamper_from limit previous rs c).1 ≡ c.1 + length rs
  unfolding tamper_from
  tamper_from_pairs limit previous [] c = omega arith
  tamper_from_pairs limit previous (r ∷ rs) (flags, pairs) =
      omega (arith, tamper_from_pairs limit r.value rs _)

  tamper_series_pairs :
      (limit : W) (rs : List (RawSensorReading W)) (c : ℕ × ℕ)
      → (tamper_series limit rs c).1 ≤ c.1 + length rs
  unfolding tamper_series
  tamper_series_pairs limit [] c = omega arith
  tamper_series_pairs limit (r ∷ rs) c = omega (arith, tamper_from_pairs limit r.value rs c)

  module _ (lib : Sorting W) (sorts : Sorts W lib) where
    tamper_counts_pairs :
        (limit : W) (n : ℕ) (groups : List (Text × List (RawSensorReading W))) (c : ℕ × ℕ)
        → All (λ (g : Text × List (RawSensorReading W)). length g.1 ≤ n) groups
        → (tamper_counts lib limit groups c).1 ≤ c.1 + length groups * n
    unfolding tamper_counts
    tamper_counts_pairs limit n [] c _ = omega arith
    tamper_counts_pairs limit n ((id, rs) ∷ groups) c (h, hs) =
        total n (length groups) c.1 (length rs) _ _ h
          (rw (length-perm (sorts.permutes rs)) at
            (tamper_series_pairs limit (lib.sort_by_timestamp rs) c))
          (tamper_counts_pairs limit n groups (tamper_series limit (lib.sort_by_timestamp rs) c) hs)
      where
        total : (n k c r a b : ℕ) → r ≤ n → a ≤ c + r → b ≤ a + k * n → b ≤ c + suc k * n
        total n k c r a b h p q = grind arith

module _ {W : Type 0} ⦃d : Float64 W⦄ (laws : IsIeee W) (lib : Sorting W) (sorts : Sorts W lib)
    (sorts_strings : SortsStrings lib.sort_strings) where
  pub check_tamper_few :
      (readings : List (RawSensorReading W)) (limit : W)
      → length readings * length readings ≤ 10 ^ 9
      → IsUnit (check_tamper lib readings limit)
  check_tamper_few readings limit h =
      let id_of : RawSensorReading W → Text = λ r. r.sensor_id in
      let groups = group_by id_of readings in
      let each =
        All_mono (λ (g : Text × List (RawSensorReading W)) v. v.1) _
          (in_order-IsGroup (λ r. Unit {0}) lib.sort_strings id_of readings sorts_strings
            (all readings)) in
      let pairs =
        tamper_counts_pairs lib sorts limit (length readings) (in_order lib.sort_strings groups)
          (0, 0) each in
      let size = length-in_order lib.sort_strings groups sorts_strings in
      check_tamper-IsUnit laws lib readings limit
        (few (length readings) _ _ _ h pairs size (length-group_by id_of readings))
    where
      all : (rs : List (RawSensorReading W)) → All (λ r. Unit {0}) rs
      all [] = tt
      all (r ∷ rs) = (tt, all rs)

      few : (n p g h : ℕ) → n * n ≤ 10 ^ 9 → p ≤ 0 + g * n → g ≡ h → h ≤ n → p ≤ 10 ^ 9
      few n p g h k l e m = grind arith
