-- ===== src/Exchange/Volatility/Ring.antt =====
-- The ring buffer against the history of pushes, newest first.
use Prim.Native.Nat.{min}
use twinval_go_backend.Prelude.{
  ℕ, zero, suc, ◌+◌, ◌-◌, ◌%◌, ◌≤◌, ◌<◌, ◌≡◌, ◌≢◌, ◌↔◌, refl, ◌∙◌, true, List, [], ◌∷◌, arith,
  length, get_or, set, ltb, if◌then◌else◌, length-set, get_or-set_self, get_or-set_ne,
  length-replicate,
}
use twinval_go_backend.Prelude.Int.{ℤ, pos, negsuc}
use twinval_go_backend.Float.{Float64, fl}
use twinval_go_backend.Exchange.Volatility.{
  VolatilityWindow, capacity_or_default, new_volatility_window, push, is_full,
}

-- The index of the value that was pushed `k` pushes before the newest one.
abbrev pub slot : ℕ → ℕ → ℕ → ℕ
slot capacity head k = if ltb k head then head - 1 - k else head + capacity - 1 - k

-- It is its own inverse, and stays in range.
pub slot-slot :
    (capacity head k : ℕ)
    → head < capacity
    → k < capacity
    → (slot capacity head k < capacity) × (slot capacity head (slot capacity head k) ≡ k)
slot-slot capacity head k h l = ground arith

-- Before the buffer has wrapped, the values stand below `head`.
pub slot_below : (capacity head k : ℕ) → k < head → slot capacity head k < head
slot_below capacity head k h = ground arith

next_head :
    (head capacity : ℕ)
    → head < capacity
    → (head + 1) % capacity ≡ (if ltb (head + 1) capacity then head + 1 else 0)
next_head head capacity h = grind arith

slot_zero :
    (capacity head : ℕ)
    → head < capacity
    → slot capacity (if ltb (head + 1) capacity then head + 1 else 0) 0 ≡ head
slot_zero capacity head h = ground arith

slot-suc :
    (capacity head k : ℕ)
    → head < capacity
    → suc k < capacity
    → slot capacity (if ltb (head + 1) capacity then head + 1 else 0) (suc k) ≡ slot capacity head k
slot-suc capacity head k h l = ground arith

slot-ne-head :
    (capacity head k : ℕ) → head < capacity → suc k < capacity → head ≢ slot capacity head k
slot-ne-head capacity head k h l = ground arith

module _ {W : Type 0} ⦃d : Float64 W⦄ where
  pub record Represents (w : VolatilityWindow W) (history : List W) : Type 0 where
    pub size : length w.values ≡ w.capacity
    pub head_in : w.head < w.capacity
    pub count_eq : w.count ≡ min (length history) w.capacity
    pub partial : w.count < w.capacity → w.head ≡ w.count
    pub recent :
        (k : ℕ)
        → k < w.count
        → get_or w.values (slot w.capacity w.head k) (fl 0) ≡ get_or history k (fl 0)

  -- NewVolatilityWindow, for every capacity: the window is valid and empty.
  pub new_volatility_window-Represents :
      (capacity : ℤ) → Represents (new_volatility_window capacity) []
  unfolding new_volatility_window
  new_volatility_window-Represents capacity = record {
    size = length-replicate (capacity_or_default capacity) (fl 0);
    head_in = positive capacity;
    count_eq = omega arith;
    partial = λ _. refl;
    recent = λ k h. absurd (omega arith);
  }
    where
      positive : (c : ℤ) → 0 < capacity_or_default c
      positive (pos zero) = omega arith
      positive (pos (suc n)) = omega arith
      positive (negsuc n) = omega arith

  -- Push on a window that holds the history: it then holds the history with the new value in
  -- front. The invariant keeps the write in range and `count` at most the capacity.
  pub push-Represents :
      (w : VolatilityWindow W) (history : List W) (v : W)
      → Represents w history
      → Represents (push w v) (v ∷ history)
  unfolding push
  push-Represents w history v r = record {
    size = length-set w.values w.head v ∙ r.size;
    head_in = omega arith;
    count_eq = ground (arith, r.count_eq);
    partial = ground (arith, next_head w.head w.capacity, r.partial);
    recent = newest;
  }
    where
      newest :
          (k : ℕ)
          → k < (if ltb w.count w.capacity then w.count + 1 else w.count)
          → get_or (set w.values w.head v) (slot w.capacity ((w.head + 1) % w.capacity) k) (fl 0)
            ≡ get_or (v ∷ history) k (fl 0)
      newest zero h =
          rw (next_head w.head w.capacity r.head_in, slot_zero w.capacity w.head r.head_in)
            (get_or-set_self w.values w.head v (fl 0) (rw r.size r.head_in))
      newest (suc k) h =
          let small : suc k < w.capacity = ground (arith, r.count_eq) in
          let old : k < w.count = ground arith in
          rw
            (
              next_head w.head w.capacity r.head_in,
              slot-suc w.capacity w.head k r.head_in small,
              get_or-set_ne w.values w.head _ v (fl 0)
                  (slot-ne-head w.capacity w.head k r.head_in small),
            )
            (r.recent k old)

  pub capacity-push : (w : VolatilityWindow W) (v : W) → (push w v).capacity ≡ w.capacity
  unfolding push
  capacity-push w v = refl

  -- IsFull on a window that holds the history: exactly when at least `capacity` values were pushed.
  pub is_full_iff :
      (w : VolatilityWindow W) (history : List W)
      → Represents w history
      → (is_full w ≡ true) ↔ (w.capacity ≤ length history)
  unfolding is_full
  is_full_iff w history r = ground (arith, r.count_eq)
