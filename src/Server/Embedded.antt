-- ===== src/Server/Embedded.antt =====
-- cmd/api/main.go: runEmbeddedSimulator. The ticks that arrive before the end of the context are an
-- argument. A panic is `none`.
pub mod Laws
use twinval_go_backend.Prelude.{ℕ, ◌+◌, Option, some, List, [], ◌∷◌, if◌then◌else◌, ◌>>=◌}
use twinval_go_backend.Prelude.Int.{ℤ}
use twinval_go_backend.Prelude.Text.{codes, text_eq}
use twinval_go_backend.Float.{Float64}
use twinval_go_backend.Clock.{new_ticker}
use twinval_go_backend.Compute.Configs.{default_all_configs}
use twinval_go_backend.Condition.Types.{default_conditioning_config}
use twinval_go_backend.Config.{AppConfig}
use twinval_go_backend.Ashrae.Sampling.{SensorLibrary}
use twinval_go_backend.Server.Pipeline.{Runtime, Times, Server, process_batch}
use twinval_go_backend.Server.Demo.{
  sim_interval, simple_random_batch, Simulated, ashrae_engines, ashrae_tick,
}

-- A tick: the clock at the batch of single-property mode, and for the batch of each building.
pub record Tick : Type 0 where
  pub now : ℤ
  pub clock : ℕ → Times

module _ {W G : Type 0} ⦃d : Float64 W⦄ (rt : Runtime W) (cfg : AppConfig W) where
  -- Single-property mode.
  unfoldable pub random_ticks : (G → W × G) → Server W → G → List Tick → Server W × G
  unfolding simple_random_batch process_batch
  random_ticks float64 s g [] = (s, g)
  random_ticks float64 s g (t ∷ ts) =
      let (batch, g') = simple_random_batch float64 cfg.property_id t.now g in
      random_ticks float64
        (process_batch rt cfg s batch default_conditioning_config default_all_configs (t.clock 0))
        g' ts

  unfoldable ashrae_ticks :
      SensorLibrary W G
      → Server W
      → List (Simulated W G)
      → List Tick
      → Server W × List (Simulated W G)
  unfolding ashrae_tick
  ashrae_ticks lib s engines [] = (s, engines)
  ashrae_ticks lib s engines (t ∷ ts) =
      let (s', engines') =
        ashrae_tick lib rt cfg default_conditioning_config default_all_configs t.clock 0 s
          engines in
      ashrae_ticks lib s' engines' ts

  unfoldable pub run_embedded_simulator :
      SensorLibrary W G → (G → W × G) → ℕ → G → Server W → List Tick → Option (Server W)
  unfolding new_ticker sim_interval ashrae_engines ashrae_ticks random_ticks
  run_embedded_simulator lib float64 year g s ticks = do
    ticker ← new_ticker (sim_interval cfg)
    if text_eq cfg.property_mode (codes "ashrae")
        then some (ashrae_ticks lib s (ashrae_engines lib year) ticks).0
        else some (random_ticks float64 s g ticks).0
