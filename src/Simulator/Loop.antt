-- ===== src/Simulator/Loop.antt =====
-- cmd/simulator/main.go: main. The ticks that arrive before the end of the context are an argument,
-- each with the clock's reading. A panic is `none`. The log lines are no part of the state.
use twinval_go_backend.Prelude.{ℕ, Option, none, some, List, [], ◌∷◌, ◌>>=◌}
use twinval_go_backend.Prelude.Int.{ℤ, pos}
use twinval_go_backend.Prelude.Text.{Text, codes}
use twinval_go_backend.Float.{Float64}
use twinval_go_backend.Clock.{new_ticker, milliseconds}
use twinval_go_backend.Ingest.Types.{WebhookPayload}
use twinval_go_backend.Config.{Env, Parsers, non_empty}
use twinval_go_backend.Simulator.{PostResult, generate_payload, post_payload}

unfoldable pub get_env : Env → Text → Text → Text
unfolding non_empty
get_env env key def = elim (non_empty env key) [ none ↦ def | some v ↦ v ]

unfoldable pub get_env_int : {W : Type 0} → Parsers W → Env → Text → ℤ → ℤ
unfolding non_empty
get_env_int lib env key def = elim (non_empty env key) [
  | none ↦ def
  | some v ↦ elim (lib.atoi v) [ none ↦ def | some n ↦ n ]
]

-- The three settings.
pub record Settings : Type 0 where
  pub webhook_url : Text
  pub property_id : Text
  pub interval_ms : ℤ

unfoldable pub settings : {W : Type 0} → Parsers W → Env → Settings
unfolding get_env get_env_int
settings lib env = record {
  webhook_url =
      get_env env (codes "TWINVAL_WEBHOOK_URL") (codes "http://localhost:8080/ingest/webhook");
  property_id = get_env env (codes "TWINVAL_PROPERTY_ID") (codes "PROP-ASHRAE-001");
  interval_ms = get_env_int lib env (codes "TWINVAL_SIM_INTERVAL_MS") (pos 1000);
}

module _ {W G : Type 0} ⦃d : Float64 W⦄ (float64 : G → W × G)
    (marshal : WebhookPayload W → Option Text) (round_trip : Text → Text → Option ℕ) where
  -- What is posted at each tick, and what comes of it. An error of a post does not end the loop.
  unfoldable pub cycles : Settings → G → List ℤ → List (WebhookPayload W × PostResult)
  unfolding generate_payload post_payload
  cycles cfg g [] = []
  cycles cfg g (now ∷ ticks) =
      let (payload, g') = generate_payload float64 cfg.property_id now g in
      (payload, post_payload marshal (round_trip cfg.webhook_url) payload) ∷ cycles cfg g' ticks

  unfoldable pub run_simulator :
      Settings → G → List ℤ → Option (List (WebhookPayload W × PostResult))
  unfolding new_ticker milliseconds cycles
  run_simulator cfg g ticks = do
    ticker ← new_ticker (milliseconds cfg.interval_ms)
    some (cycles cfg g ticks)
