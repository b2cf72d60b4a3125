-- ===== src/Condition/Preprocess/Smooth.antt =====
-- Denoise (internal/condition/preprocess.go) on numbers within a bound.
use twinval_go_backend.Prelude.{
  ℕ, suc, ◌+◌, ◌*◌, ◌^◌, ◌≤◌, List, [], ◌∷◌, arith, All, All_mono, length,
}
use twinval_go_backend.Float.{Float64, IsIeee, IsUnit, fl, ◌⊕◌, ◌⊖◌, ◌⊗◌}
use twinval_go_backend.Float.Order.{complement-IsUnit}
use twinval_go_backend.Float.Within.{Within, Within_mono, add-Within, weighted-Within}
use twinval_go_backend.Condition.Preprocess.{smooth, denoise}

module _ {W : Type 0} ⦃d : Float64 W⦄ (laws : IsIeee W) where
  -- The weights of the two terms round to at most 1.0 each, so a step adds the bound at most once.
  smooth-Within :
      (alpha : W) (b k : ℕ) (previous : W) (vs : List W)
      → IsUnit alpha
      → k + length vs * b ≤ 10 ^ 9
      → Within k previous
      → All (Within b) vs
      → All (Within (k + length vs * b)) (smooth alpha previous vs)
  unfolding smooth
  smooth-Within alpha b k previous [] u h p _ = tt
  smooth-Within alpha b k previous (v ∷ vs) u h p (q, qs) =
      let n = length vs in
      let next = alpha ⊗ v ⊕ (fl 1 ⊖ alpha) ⊗ previous in
      let step : Within (b + k) next =
        add-Within laws b k _ _ (first b k n h)
          (weighted-Within laws b alpha v (second b k n h) u q)
          (weighted-Within laws k (fl 1 ⊖ alpha) previous (third b k n h)
            (complement-IsUnit laws alpha u) p) in
      (
        Within_mono laws (b + k) (k + suc n * b) next (fourth b k n) step,
        All_mono (λ x. Within_mono laws ((b + k) + n * b) (k + suc n * b) x (fifth b k n))
            (smooth alpha next vs)
            (smooth-Within alpha b (b + k) next vs u (sixth b k n h) step qs),
      )
    where
      first : (b k n : ℕ) → k + suc n * b ≤ 10 ^ 9 → b + k ≤ 10 ^ 9
      first b k n h = grind arith

      second : (b k n : ℕ) → k + suc n * b ≤ 10 ^ 9 → b ≤ 10 ^ 9
      second b k n h = grind arith

      third : (b k n : ℕ) → k + suc n * b ≤ 10 ^ 9 → k ≤ 10 ^ 9
      third b k n h = grind arith

      fourth : (b k n : ℕ) → b + k ≤ k + suc n * b
      fourth b k n = grind arith

      fifth : (b k n : ℕ) → (b + k) + n * b ≤ k + suc n * b
      fifth b k n = grind arith

      sixth : (b k n : ℕ) → k + suc n * b ≤ 10 ^ 9 → (b + k) + n * b ≤ 10 ^ 9
      sixth b k n h = grind arith

  -- Denoise with a weight from 0.0 to 1.0, of n values from 0.0 to b with n * b at most 10^9: each
  -- smoothed value lies from 0.0 to n * b.
  pub denoise-Within :
      (alpha : W) (b : ℕ) (vs : List W)
      → IsUnit alpha
      → length vs * b ≤ 10 ^ 9
      → All (Within b) vs
      → All (Within (length vs * b)) (denoise vs alpha)
  unfolding denoise
  denoise-Within alpha b [] u h _ = tt
  denoise-Within alpha b (v ∷ vs) u h (q, qs) =
      let n = length vs in
      (
        Within_mono laws b (suc n * b) v (single b n) q,
        All_mono (λ x. Within_mono laws (b + n * b) (suc n * b) x (same b n)) (smooth alpha v vs)
            (smooth-Within alpha b b v vs u (enough b n h) q qs),
      )
    where
      single : (b n : ℕ) → b ≤ suc n * b
      single b n = grind arith

      same : (b n : ℕ) → b + n * b ≤ suc n * b
      same b n = grind arith

      enough : (b n : ℕ) → suc n * b ≤ 10 ^ 9 → b + n * b ≤ 10 ^ 9
      enough b n h = grind arith
