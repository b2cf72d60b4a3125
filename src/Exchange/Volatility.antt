-- ===== src/Exchange/Volatility.antt =====
-- internal/exchange/volatility.go: the ring buffer of recent RTPMVs.
pub mod Ring
pub mod Extremes
use twinval_go_backend.Prelude.{
  ℕ, zero, suc, ◌+◌, ◌-◌, ◌%◌, Bool, List, get_or, set, replicate, ltb, ◌==◌, if◌then◌else◌,
}
use twinval_go_backend.Prelude.Int.{ℤ, pos, negsuc}
use twinval_go_backend.Float.{Float64, fl, ◌⊖◌, ◌⊘◌, ◌<?◌, ◌≤?◌}

pub record VolatilityWindow (W : Type 0) : Type 0 where
  pub capacity : ℕ
  pub values : List W
  pub head : ℕ
  pub count : ℕ

-- `if capacity <= 0 { capacity = 10 }`.
abbrev pub capacity_or_default : ℤ → ℕ
capacity_or_default (pos zero) = 10
capacity_or_default (pos (suc n)) = suc n
capacity_or_default (negsuc n) = 10

module _ {W : Type 0} ⦃d : Float64 W⦄ where
  unfoldable pub new_volatility_window : ℤ → VolatilityWindow W
  new_volatility_window capacity = record {
    capacity = capacity_or_default capacity;
    values = replicate (capacity_or_default capacity) (fl 0);
    head = 0;
    count = 0;
  }

  -- `Ring.Represents` keeps `head` in range, so the write never misses.
  unfoldable pub push : VolatilityWindow W → W → VolatilityWindow W
  push w v = record w {
    values = set w.values w.head v;
    head = (w.head + 1) % w.capacity;
    count = if ltb w.count w.capacity then w.count + 1 else w.count;
  }

  -- The loop over `values[i..i+left)`.
  unfoldable pub extremes : List W → ℕ → ℕ → W → W → W × W
  extremes values zero i lo hi = (lo, hi)
  extremes values (suc left) i lo hi =
      let v = get_or values i (fl 0) in
      extremes values left (i + 1) (if v <? lo then v else lo) (if hi <? v then v else hi)

  -- The end of the function, past the loop.
  abbrev pub relative_swing : W × W → W
  relative_swing (lo, hi) = if lo ≤? fl 0 then fl 0 else (hi ⊖ lo) ⊘ lo

  unfoldable pub volatility : VolatilityWindow W → W
  unfolding extremes
  volatility w =
      if ltb w.count 2
      then fl 0
      else relative_swing
          (extremes w.values (w.count - 1) 1 (get_or w.values 0 (fl 0)) (get_or w.values 0 (fl 0)))

  unfoldable pub is_full : VolatilityWindow W → Bool
  is_full w = w.count == w.capacity
