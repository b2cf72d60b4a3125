-- ===== src/Server/Demo/Modest.antt =====
-- simpleRandomBatch (cmd/api/main.go): few enough readings, from 0.0 to 700.0.
use twinval_go_backend.Prelude.{
  ℕ, ◌+◌, ◌*◌, ◌^◌, ◌≤◌, refl, Bool, true, false, arith, if◌then◌else◌,
}
use twinval_go_backend.Prelude.Int.{ℤ}
use twinval_go_backend.Prelude.Text.{Text}
use twinval_go_backend.Float.{Float64, IsIeee, IsUnit, fl, decimal, ◌⊖◌, ◌≼◌}
use twinval_go_backend.Float.Order.{fl-IsFinite, fl-IsNum, sub_nonneg}
use twinval_go_backend.Float.Scale.{decimal-IsFinite}
use twinval_go_backend.Float.Within.{Within, Within_mono, add-Within, weighted-Within}
use twinval_go_backend.Compute.Configs.{default_all_configs}
use twinval_go_backend.Compute.Aged.{insensitive_factor}
use twinval_go_backend.Server.Demo.{uniform, simple_random_batch}
use twinval_go_backend.Server.Valued.{IsUsual}

module _ {W G : Type 0} ⦃d : Float64 W⦄ (laws : IsIeee W) (float64 : G → W × G)
    (draws : (g : G) → IsUnit (float64 g).0) where
  open laws use {decimal_mono, sub_mono, sub_zero, sub-IsNum}

  decimal-Within : (a n : ℕ) → a ≤ n * 10_000 → Within {W = W} n (decimal a)
  decimal-Within a n h = (decimal_mono 0 a (omega arith), decimal_mono a (n * 10_000) h)

  -- `hi - lo` is not negative, and at most `hi`.
  width-Within :
      (a b n : ℕ) → a ≤ b → b ≤ n * 10_000 → n ≤ 10 ^ 9 → Within {W = W} n (decimal b ⊖ decimal a)
  width-Within a b n h k l =
      let fa = decimal-IsFinite laws a (omega arith) in
      let fb = decimal-IsFinite laws b (omega arith) in
      let z = fl-IsFinite laws 0 (omega arith) in
      let below : decimal {W = W} b ⊖ decimal a ≼ decimal b ⊖ fl 0 =
        sub_mono _ _ _ _ fb.0 (decimal_mono 0 a (omega arith)) (sub-IsNum _ _ fb.0 fa)
          (sub-IsNum _ _ fb.0 z) in
      (
        sub_nonneg laws _ _ fa fb.0 (decimal_mono a b h),
        laws.le_trans _ _ _ (rw (sub_zero (decimal b) fb.0) at below)
            (decimal_mono b (n * 10_000) k),
      )

  uniform-Within :
      (a b n : ℕ) (g : G)
      → a ≤ b
      → b ≤ n * 10_000
      → n ≤ 350
      → Within 700 (uniform float64 (decimal a) (decimal b) g).0
  unfolding uniform
  uniform-Within a b n g h k l = Within_mono laws (n + n) 700 _ (omega arith) (
      add-Within laws n n _ _ (omega arith) (decimal-Within a n (omega arith))
        (weighted-Within laws n _ _ (omega arith) (draws g) (width-Within a b n h k (omega arith))))

  chosen-Within :
      (b : Bool) (x y : W) → Within 700 x → Within 700 y → Within 700 (if b then x else y)
  chosen-Within true x y p q = p
  chosen-Within false x y p q = q

  -- The batch, for a generator that draws numbers from 0.0 to 1.0: eight readings from 0.0 to 700.0,
  -- and no maintenance data.
  pub simple_random_batch-IsUsual :
      (id : Text) (now : ℤ) (g : G)
      → IsUsual 700 (default_all_configs {W = W}) (simple_random_batch float64 id now g).0
  unfolding simple_random_batch
  simple_random_batch-IsUsual id now g =
      let days : Within {W = W} 700 (fl 30) = decimal-Within 300_000 700 (omega arith) in
      let u = uniform-Within in
      record {
        modest = record {
          readings = (
            (
              chosen-Within _ _ _ (decimal-Within 2500 700 (omega arith))
                  (u 100 800 1 _ (omega arith) (omega arith) (omega arith)),
              days,
            ),
            (
              (
                chosen-Within _ _ _ (decimal-Within 7_000_000 700 (omega arith))
                    (u 500_000 3_000_000 300 _ (omega arith) (omega arith) (omega arith)),
                days,
              ),
              (
                (u 200_000 260_000 26 _ (omega arith) (omega arith) (omega arith), days),
                (
                  (u 400_000 600_000 60 _ (omega arith) (omega arith) (omega arith), days),
                  (
                    (u 50_000 200_000 20 _ (omega arith) (omega arith) (omega arith), days),
                    (
                      (u 3000 9000 1 _ (omega arith) (omega arith) (omega arith), days),
                      (
                        (u 4000 8500 1 _ (omega arith) (omega arith) (omega arith), days),
                        ((u 2000 6000 1 _ (omega arith) (omega arith) (omega arith), days), tt),
                      ),
                    ),
                  ),
                ),
              ),
            ),
          );
          positive = omega arith;
          few = omega arith;
          bound = omega arith;
          expected = 1;
          expects = refl;
          few_expected = omega arith;
        };
        aged = record {
          age = fl-IsFinite laws 0 (omega arith);
          factor =
              insensitive_factor laws (decimal 3000) (fl 0)
                (decimal-IsFinite laws 3000 (omega arith)) (fl-IsNum laws 0)
                (fl-IsFinite laws 0 (omega arith));
        };
      }
