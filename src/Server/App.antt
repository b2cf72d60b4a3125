-- ===== src/Server/App.antt =====
-- cmd/api/main.go: main, from the environment to the running server, and the loop of runPipeline on
-- the channel that it subscribed. The receiver is never started: its handler is mounted on the main
-- mux. A panic, or a receive that blocks, is `none`.
pub mod Laws
use twinval_go_backend.Prelude.{Bool, true, false, Option, none, some, List, [], ◌∷◌, ◌>>=◌}
use twinval_go_backend.Prelude.Text.{Text, codes}
use twinval_go_backend.Float.{Float64}
use twinval_go_backend.Channel.{Channel}
use twinval_go_backend.Compute.Configs.{default_all_configs}
use twinval_go_backend.Condition.Types.{RawSensorBatch, default_conditioning_config}
use twinval_go_backend.Ingest.Types.{IngestConfig, WebhookPayload, default_ingest_config}
use twinval_go_backend.Ingest.Validate.{Sprintf}
use twinval_go_backend.Ingest.Webhook.{
  WebhookReceiver, Decoded, Request, Response, new_webhook_receiver, subscribe_webhook,
  receive_webhook, handle_post,
}
use twinval_go_backend.Config.{AppConfig}
use twinval_go_backend.Api.Handlers.{Handlers}
use twinval_go_backend.Api.Registry.{PropertyRegistry}
use twinval_go_backend.Server.Bootstrap.{bootstrap_all}
use twinval_go_backend.Server.Pipeline.{Runtime, Times, Server, process_batch}

pub record App (W : Type 0) : Type 0 where
  pub server : Server W
  pub receiver : WebhookReceiver W
  -- The goroutine of runPipeline has not returned.
  pub looping : Bool

-- What `select` of runPipeline takes: the end of the context, or a batch, with the clock's readings
-- for it. If both are ready, it takes either.
pub data Select : Type 0 where
  ctx_done : Select
  batch_ready : Times → Select

module _ {W : Type 0} ⦃d : Float64 W⦄ where
  abbrev pub ingest_config : IngestConfig W
  ingest_config = record default_ingest_config { webhook_path = codes "/ingest/webhook" }

  -- What is made before the goroutines and the HTTP server start.
  unfoldable pub start_app : AppConfig W → Option (App W)
  unfolding bootstrap_all new_webhook_receiver subscribe_webhook
  start_app cfg = do
    registry ← bootstrap_all cfg []
    some (record {
      server = record { registry = registry; hub = [] };
      receiver = subscribe_webhook (new_webhook_receiver ingest_config);
      looping = true;
    })

  -- The handlers, over the registry as it is at a request.
  unfoldable pub handlers : AppConfig W → App W → Handlers W
  handlers cfg app = record {
    registry = app.server.registry;
    cors_origin = cfg.cors_origin;
    default_chain_limit = cfg.chain_limit;
    version = codes "1.0.0";
  }

module _ {W : Type 0} (decode : Text → Decoded (WebhookPayload W)) (fmt : Sprintf) where
  -- A request at /ingest/webhook.
  unfoldable pub serve_webhook : ⦃d : Float64 W⦄ → App W → Request → Option (App W × Response)
  unfolding handle_post
  serve_webhook app req = do
    (w, resp) ← handle_post decode fmt app.receiver req
    some (record app { receiver = w }, resp)

-- The oldest batch of batchCh, the first channel of the receiver.
unfoldable pub front : {A : Type 0} → List (Channel A) → Option A
front [] = none
front (ch ∷ chs) = elim ch.buffer [ [] ↦ none | x ∷ xs ↦ some x ]

module _ {W : Type 0} ⦃d : Float64 W⦄ (rt : Runtime W) (cfg : AppConfig W) where
  -- One round of runPipeline. The channel is never closed.
  unfoldable pub pipeline_step : App W → Select → Option (App W)
  unfolding front receive_webhook process_batch
  pipeline_step app ctx_done = some (record app { looping = false })
  pipeline_step app (batch_ready now) = elim (front app.receiver.fanout.channels) [
    | none ↦ none
    | some batch ↦ do
      w ← receive_webhook app.receiver 0
      some (record app {
        server =
            process_batch rt cfg app.server batch default_conditioning_config default_all_configs
              now;
        receiver = w;
      })
  ]

  -- The rounds of the loop, until it returns.
  unfoldable pub drain : App W → List Select → Option (App W)
  unfolding pipeline_step
  drain app [] = some app
  drain app (s ∷ rest) = elim app.looping [
    | true ↦ do app' ← pipeline_step app s; drain app' rest
    | false ↦ some app
  ]
