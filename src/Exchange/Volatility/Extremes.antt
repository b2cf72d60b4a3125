-- ===== src/Exchange/Volatility/Extremes.antt =====
-- Volatility against the history of pushes.
use native.Mathlib.Decide.{dec_lt}
use twinval_go_backend.Prelude.{
  ℕ, zero, suc, ◌+◌, ◌-◌, ◌≤◌, ◌<◌, ◌≡◌, refl, ◌∙◌, ◌⊎◌, inl, inr, List, arith, get_or,
  if◌then◌else◌,
}
use twinval_go_backend.Float.{Float64, IsIeee, IsNum, fl, ◌≼◌, ◌<?◌}
use twinval_go_backend.Float.Order.{le_of_lt, le_of_not_lt}
use twinval_go_backend.Exchange.Volatility.{VolatilityWindow, extremes, volatility, relative_swing}
use twinval_go_backend.Exchange.Volatility.Ring.{Represents, slot, slot-slot, slot_below}

module _ {W : Type 0} ⦃d : Float64 W⦄ where
  -- `x` is the start value or one of `values[i..i+left)`.
  abbrev Among : List W → ℕ → ℕ → W → W → Type 0
  Among values left i start x =
      (x ≡ start) ⊎ ((j : ℕ) × (i ≤ j) × (j < i + left) × (x ≡ get_or values j (fl 0)))

  record IsExtremes (values : List W) (left i : ℕ) (lo hi : W) (r : W × W) : Type 0 where
    low : r.0 ≼ lo
    high : hi ≼ r.1
    between :
        (j : ℕ)
        → i ≤ j
        → j < i + left
        → (r.0 ≼ get_or values j (fl 0)) × (get_or values j (fl 0) ≼ r.1)
    low_among : Among values left i lo r.0
    high_among : Among values left i hi r.1

  -- The least and the greatest of the last `count` values, as they stand in the history.
  pub record IsRange (history : List W) (count : ℕ) (lo hi : W) : Type 0 where
    pub low_at : (k : ℕ) × (k < count) × (lo ≡ get_or history k (fl 0))
    pub high_at : (k : ℕ) × (k < count) × (hi ≡ get_or history k (fl 0))
    pub between :
        (k : ℕ) → k < count → (lo ≼ get_or history k (fl 0)) × (get_or history k (fl 0) ≼ hi)

module _ {W : Type 0} ⦃d : Float64 W⦄ (laws : IsIeee W) where
  open laws use {IsNum-of_le, IsNum-of_lt, le_trans}

  pick_low :
      (v lo : W)
      → IsNum v
      → IsNum lo
      → let m = if v <? lo then v else lo in (m ≼ v) × (m ≼ lo) × ((m ≡ lo) ⊎ (m ≡ v))
  pick_low v lo p q = ground (arith, le_of_lt laws v lo, le_of_not_lt laws v lo p q)

  pick_high :
      (v hi : W)
      → IsNum v
      → IsNum hi
      → let m = if hi <? v then v else hi in (v ≼ m) × (hi ≼ m) × ((m ≡ hi) ⊎ (m ≡ v))
  pick_high v hi p q = ground (arith, le_of_lt laws hi v, le_of_not_lt laws hi v q p)

  widen :
      (values : List W) (left i : ℕ) (start m x : W)
      → (m ≡ start) ⊎ (m ≡ get_or values i (fl 0))
      → Among values left (i + 1) m x
      → Among values (suc left) i start x
  widen values left i start m x (inl e) (inl f) = inl (f ∙ e)
  widen values left i start m x (inr e) (inl f) = inr (i, omega arith, omega arith, f ∙ e)
  widen values left i start m x _ (inr (j, p, q, f)) = inr (j, omega arith, omega arith, f)

  extremes-IsExtremes :
      (values : List W) (left i : ℕ) (lo hi : W)
      → IsNum lo
      → IsNum hi
      → ((j : ℕ) → i ≤ j → j < i + left → IsNum (get_or values j (fl 0)))
      → IsExtremes values left i lo hi (extremes values left i lo hi)
  unfolding extremes
  extremes-IsExtremes values zero i lo hi p q n = record {
    low = p;
    high = q;
    between = λ j h k. absurd (omega arith);
    low_among = inl refl;
    high_among = inl refl;
  }
  extremes-IsExtremes values (suc left) i lo hi p q n =
      let v = get_or values i (fl 0) in
      let num : IsNum v = n i (omega arith) (omega arith) in
      let a = pick_low v lo num p in
      let b = pick_high v hi num q in
      let rest =
        extremes-IsExtremes values left (i + 1) (if v <? lo then v else lo)
          (if hi <? v then v else hi) (IsNum-of_le _ _ a.0).0 (IsNum-of_le _ _ b.0).1
          (λ j h k. n j (omega arith) (omega arith)) in
      record {
        low = le_trans _ _ _ rest.low a.1;
        high = le_trans _ _ _ b.1 rest.high;
        between = λ j h k. elim (dec_lt i j) [
          | yes l ↦ rest.between j (omega arith) (omega arith)
          | no l ↦
              let e : j ≡ i = omega arith in
              rw e (le_trans _ _ _ rest.low a.0, le_trans _ _ _ b.0 rest.high)
        ];
        low_among = widen values left i lo _ _ a.2 rest.low_among;
        high_among = widen values left i hi _ _ b.2 rest.high_among;
      }

  slot_held :
      (w : VolatilityWindow W) (history : List W)
      → Represents w history
      → (j : ℕ) → j < w.count
      → (j < w.capacity) × (slot w.capacity w.head j < w.count)
  slot_held w history r j h =
      let inside : j < w.capacity = omega (arith, r.count_eq) in
      (
        inside,
        elim (dec_lt w.count w.capacity) [
          | yes l ↦
              let e = r.partial l in omega (arith, slot_below w.capacity w.head j (omega arith))
          | no l ↦ omega (arith, r.count_eq, (slot-slot w.capacity w.head j r.head_in inside).0)
        ],
      )

  -- Volatility on a window that holds the history, at least two values and all of them numbers: it
  -- is (max − min) / min for the greatest and the least of the values held, which are the last
  -- `count` of the history, and 0.0 where that least value is not positive.
  pub volatility_refines :
      (w : VolatilityWindow W) (history : List W)
      → Represents w history
      → 2 ≤ w.count
      → ((k : ℕ) → k < w.count → IsNum (get_or history k (fl 0)))
      → (lo : W) × (hi : W) × IsRange history w.count lo hi
        × (volatility w ≡ relative_swing (lo, hi))
  unfolding volatility
  volatility_refines w history r two nums = (
    found.0,
    found.1,
    record { low_at = low_at; high_at = high_at; between = between },
    ground arith,
  )
    where
      -- The value at an index is the one at its slot in the history.
      swap :
          (j : ℕ)
          → j < w.count
          → (slot w.capacity w.head j < w.count)
            × (get_or w.values j (fl 0) ≡ get_or history (slot w.capacity w.head j) (fl 0))
      swap j h =
          let back = (slot-slot w.capacity w.head j r.head_in (slot_held w history r j h).0).1 in
          let held = (slot_held w history r j h).1 in
          (held, rw back at (r.recent (slot w.capacity w.head j) held))

      found : W × W
      found =
          extremes w.values (w.count - 1) 1 (get_or w.values 0 (fl 0)) (get_or w.values 0 (fl 0))

      num_at : (j : ℕ) → j < w.count → IsNum (get_or w.values j (fl 0))
      num_at j h = rw (swap j h).1 (nums _ (swap j h).0)

      result :
          IsExtremes w.values
            (w.count - 1)
            1
            (get_or w.values 0 (fl 0))
            (get_or w.values 0 (fl 0))
            found
      result =
          extremes-IsExtremes w.values (w.count - 1) 1 _ _ (num_at 0 (omega arith))
            (num_at 0 (omega arith)) (λ j h k. num_at j (omega arith))

      locate :
          (x : W)
          → Among w.values (w.count - 1) 1 (get_or w.values 0 (fl 0)) x
          → (k : ℕ) × (k < w.count) × (x ≡ get_or history k (fl 0))
      locate x (inl e) = let (h, f) = swap 0 (omega arith) in (_, h, e ∙ f)
      locate x (inr (j, p, q, e)) = let (h, f) = swap j (omega arith) in (_, h, e ∙ f)

      low_at : (k : ℕ) × (k < w.count) × (found.0 ≡ get_or history k (fl 0))
      low_at = locate found.0 result.low_among

      high_at : (k : ℕ) × (k < w.count) × (found.1 ≡ get_or history k (fl 0))
      high_at = locate found.1 result.high_among

      at_index :
          (j : ℕ)
          → j < w.count
          → (found.0 ≼ get_or w.values j (fl 0)) × (get_or w.values j (fl 0) ≼ found.1)
      at_index zero h = (result.low, result.high)
      at_index (suc j) h = result.between (suc j) (omega arith) (omega arith)

      between :
          (k : ℕ)
          → k < w.count
          → (found.0 ≼ get_or history k (fl 0)) × (get_or history k (fl 0) ≼ found.1)
      between k h = rw (← r.recent k h) (at_index _ (slot_held w history r k h).1)
