-- ===== src/Exchange/State/Classify.antt =====
-- classifyState: the bands, and NaN.
use twinval_go_backend.Prelude.{◌≡◌, ◌↔◌, ◌⊎◌, inl, inr, true, arith}
use twinval_go_backend.Float.{Float64, IsIeee, IsNum, IsFinite, ◌≼◌, ◌≺◌, ◌<?◌}
use twinval_go_backend.Float.Order.{lt_of_lt-le, le_of_lt}
use twinval_go_backend.Exchange.Types.{active, halted}
use twinval_go_backend.Exchange.State.{classify_state}

module _ {W : Type 0} ⦃d : Float64 W⦄ (laws : IsIeee W) where
  open laws use {
    IsNum-of_le, IsNum-of_lt, le_trans, lt-eq-not-le, le_total, min_le, min_cases, min_nan_left,
  }

  lt_of_le-lt : (x y z : W) → x ≼ y → y ≺ z → x ≺ z
  lt_of_le-lt x y z h k = ground (
    arith,
    IsNum-of_le x y h,
    IsNum-of_lt y z k,
    lt-eq-not-le y z,
    lt-eq-not-le x z,
    le_trans z x y,
  )

  -- The worse of two numbers is below a limit exactly when one of them is.
  min-lt_iff :
      (h c limit : W) → IsNum h → IsNum c → (d.min h c ≺ limit) ↔ ((h ≺ limit) ⊎ (c ≺ limit))
  min-lt_iff h c limit p q = (down, up)
    where
      down : d.min h c ≺ limit → (h ≺ limit) ⊎ (c ≺ limit)
      down l = elim (min_cases h c p q) [ inl e ↦ inl (rw e at l) | inr e ↦ inr (rw e at l) ]

      up : (h ≺ limit) ⊎ (c ≺ limit) → d.min h c ≺ limit
      up (inl l) = lt_of_le-lt _ _ _ (min_le h c p q).0 l
      up (inr l) = lt_of_le-lt _ _ _ (min_le h c p q).1 l

  -- The bands of classifyState, for numbers and thresholds in the order that MustValidate asks for:
  -- Halted exactly when one metric is below the second threshold, and Active exactly when none is
  -- below the first one.
  pub classify_state_bands :
      (health confidence first second : W)
      → IsNum health
      → IsNum confidence
      → second ≺ first
      → ((classify_state health confidence first second ≡ halted)
          ↔ ((health ≺ second) ⊎ (confidence ≺ second)))
        × ((classify_state health confidence first second ≡ active)
            ↔ (¬ ((health ≺ first) ⊎ (confidence ≺ first))))
  unfolding classify_state
  classify_state_bands h c first second p q order =
      let below = min-lt_iff h c second p q in
      let under = min-lt_iff h c first p q in
      let step : d.min h c ≺ second → d.min h c ≺ first =
        λ l. lt_of_lt-le laws _ _ _ l (le_of_lt laws _ _ order) in
      (
        (λ e. below.0 (ground arith), λ o. ground (arith, below.1 o)),
        (
          λ e o. ground (arith, step, under.1 o),
          λ n.
              let above : ¬ (d.min h c ≺ first) = λ l. n (under.0 l) in ground (arith, step, above),
        ),
      )

  -- What classifyState does with NaN: whatever the thresholds are, a health that is NaN beside a
  -- finite confidence is classified Active.
  pub classify_state_nan :
      (health confidence first second : W)
      → ¬ IsNum health
      → IsFinite confidence
      → classify_state health confidence first second ≡ active
  unfolding classify_state
  classify_state_nan h c first second p q =
      let n = min_nan_left h c p q in
      let no_lt : (x : W) → (d.min h c <? x) ≡ true → ⊥ = λ x l. n (IsNum-of_lt _ _ l).0 in
      ground (arith, no_lt first, no_lt second)
