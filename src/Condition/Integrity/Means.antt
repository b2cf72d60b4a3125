-- ===== src/Condition/Integrity/Means.antt =====
-- Sums and means of numbers within a bound.
use twinval_go_backend.Prelude.{ℕ, suc, ◌+◌, ◌*◌, ◌^◌, ◌≤◌, ◌≡◌, List, [], ◌∷◌, arith, All, length}
use twinval_go_backend.Float.{Float64, IsIeee, fl, ◌⊕◌, ◌≼◌}
use twinval_go_backend.Float.Order.{fl-IsFinite, fl-IsNum, add_nonneg, div_nonneg}
use twinval_go_backend.Float.Within.{Within, add-Within, zero-Within, part-Within, fl_pos}
use twinval_go_backend.Condition.Integrity.{sum_from, mean, mean_or_default}

-- What the bounds below compute with.
pub grow : (k b n : ℕ) → (k + b) + n * b ≡ k + suc n * b
grow k b n = grind arith

pub room : (k b n m : ℕ) → k + suc n * b ≤ m → k + b ≤ m
room k b n m h = grind arith

module _ {W : Type 0} ⦃d : Float64 W⦄ (laws : IsIeee W) where
  sum_from-Within :
      (b k : ℕ) (acc : W) (vs : List W)
      → k + length vs * b ≤ 10 ^ 9
      → Within k acc
      → All (Within b) vs
      → Within (k + length vs * b) (sum_from acc vs)
  unfolding sum_from
  sum_from-Within b k acc [] h p _ = rw (eq k) p
    where
      eq : (k : ℕ) → k + 0 * b ≡ k
      eq k = omega arith
  sum_from-Within b k acc (v ∷ vs) h p (q, qs) = rw (grow k b (length vs)) at (
      sum_from-Within b (k + b) (acc ⊕ v) vs (rw (grow k b (length vs)) h)
        (add-Within laws k b acc v (room k b (length vs) (10 ^ 9) h) p q) qs)

  pub mean-Within :
      (b : ℕ) (v : W) (vs : List W)
      → suc (length vs) * b ≤ 10 ^ 9
      → suc (length vs) ≤ 10 ^ 9
      → All (Within b) (v ∷ vs)
      → Within b (mean (v ∷ vs))
  mean-Within b v vs h k a =
      part-Within laws b (suc (length vs)) _ (omega arith) k (rw (comm b (suc (length vs))) h) (
        rw (comm b (suc (length vs))) (
          rw (from_zero (suc (length vs) * b)) at
            (sum_from-Within b 0 (fl 0) (v ∷ vs) (omega arith) (zero-Within laws 0) a)))
    where
      comm : (m n : ℕ) → m * n ≡ n * m
      comm m n = grind arith

      from_zero : (n : ℕ) → 0 + n ≡ n
      from_zero n = omega arith

  pub mean_or_default-Within :
      (b : ℕ) (vs : List W) (def : W)
      → length vs * b ≤ 10 ^ 9
      → length vs ≤ 10 ^ 9
      → Within b def
      → All (Within b) vs
      → Within b (mean_or_default vs def)
  unfolding mean_or_default
  mean_or_default-Within b [] def h k p a = p
  mean_or_default-Within b (v ∷ vs) def h k p a = mean-Within b v vs h k a

  sum_from_nonneg :
      (acc : W) (vs : List W) → fl 0 ≼ acc → All (λ (v : W). fl 0 ≼ v) vs → fl 0 ≼ sum_from acc vs
  unfolding sum_from
  sum_from_nonneg acc [] p _ = p
  sum_from_nonneg acc (v ∷ vs) p (q, qs) =
      sum_from_nonneg (acc ⊕ v) vs (add_nonneg laws acc v p q) qs

  pub mean_nonneg :
      (v : W) (vs : List W)
      → suc (length vs) ≤ 10 ^ 9
      → All (λ (x : W). fl 0 ≼ x) (v ∷ vs)
      → fl 0 ≼ mean (v ∷ vs)
  mean_nonneg v vs k a =
      div_nonneg laws _ _ (fl-IsFinite laws (suc (length vs)) k)
        (fl_pos laws (suc (length vs)) (omega arith) k)
        (sum_from_nonneg (fl 0) (v ∷ vs) (fl-IsNum laws 0) a)
