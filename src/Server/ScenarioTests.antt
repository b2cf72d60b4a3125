-- ===== src/Server/ScenarioTests.antt =====
-- The theorems on the whole server at concrete runs, over whole ten-thousandths.
use mathlib.Core.Bool.{false≢true}
use twinval_go_backend.Prelude.{
  drop, sym, ap, ◌∙◌, false, ℕ, ◌≡◌, ◌≢◌, ◌⊎◌, refl, true, some, List, [], ◌∷◌, arith,
}
use twinval_go_backend.Prelude.Int.{pos}
use twinval_go_backend.Prelude.Text.{Text, codes}
use twinval_go_backend.Float.{fl, ◌≤?◌, decimal}
use twinval_go_backend.Float.Fixed.{Fixed, fixed_float}
use twinval_go_backend.Float.Fixed.Laws.{Fixed-IsIeee}
use twinval_go_backend.Compute.Configs.{default_all_configs}
use twinval_go_backend.Compute.Indicators.{
  compute_all_indicators, compute_health_factor, compute_rtpmv, compute_shf, compute_esf,
  compute_uss, compute_pdp, compute_ci, compute_effective_age, wohler_penalty, range_score,
}
use twinval_go_backend.Condition.Types.{RawSensorBatch, default_conditioning_config}
use twinval_go_backend.Condition.Sorted.{insertion-Sorts}
use twinval_go_backend.Condition.Process.Met.{Fixed-IsCalibrated, same-SortsStrings}
use twinval_go_backend.Compute.Tests.{degraded, steady}
use twinval_go_backend.Config.{AppConfig, load_from_env}
use twinval_go_backend.Cryptochain.Types.{ValuationToken}
use twinval_go_backend.Cryptochain.Verify.{verify}
use twinval_go_backend.Cryptochain.Chain.{head}
use twinval_go_backend.Api.Registry.{PropertyState, PropertyRegistry, get}
use twinval_go_backend.Server.Bootstrap.{bootstrap_all}
use twinval_go_backend.Server.Pipeline.{Server, run_pipeline}
use twinval_go_backend.Server.Demo.{simple_random_batch}
use twinval_go_backend.Server.Demo.Modest.{simple_random_batch-IsUsual}
use twinval_go_backend.Server.Valued.{IsHeld, served_values_bounded}
use twinval_go_backend.Server.Concurrent.{
  Job, System, idle, computed, sent, appended, quoted, at, job, send_step, append_step, quote_step,
  cache_step, by_begin, by_send, by_append, by_quote, by_cache, Reachable, here, next,
}
use twinval_go_backend.Server.Concurrent.Laws.{Recorded, interleaved_calls_verify}
use twinval_go_backend.Server.Concurrent.Stale.{cache_goes_stale}
use twinval_go_backend.Server.Embedded.{Tick}
use twinval_go_backend.Server.App.{
  App, ctx_done, batch_ready, ingest_config, start_app, serve_webhook, drain,
}
use twinval_go_backend.Server.App.Laws.{with_times, pending, queue, accepted_post_processed}
use twinval_go_backend.Server.App.Laws as App
use twinval_go_backend.Server.Bootstrap.{bootstrap_property}
use twinval_go_backend.Ingest.Types.{WebhookPayload}
use twinval_go_backend.Ingest.Validate.{Sprintf}
use twinval_go_backend.Ingest.Webhook.{
  Decoded, decoded, Request, method_post, new_webhook_receiver, subscribe_webhook,
}
use twinval_go_backend.Simulator.{generate_payload}
use twinval_go_backend.Simulator.Accepted.{generate_payload-IsAcceptable}
use twinval_go_backend.Ashrae.Tests as AshraeTests
use twinval_go_backend.Server.Tests.{runtime, config, property, property-IsSound, now}

-- A generator that always draws 0.5.
abbrev half : ℕ → Fixed × ℕ
half g = (decimal 5000, g)

abbrev ashrae : AppConfig Fixed
ashrae = record config { property_mode = codes "ashrae" }

abbrev drawn : RawSensorBatch Fixed
drawn = (simple_random_batch half (codes "MY-KL-OFF-KLCC") (pos 7) 0).0

served_values_example :
    (r : PropertyRegistry Fixed) × (bootstrap_all ashrae [] ≡ some r)
    × ((id : Text) (ps : PropertyState Fixed)
        → get
            (run_pipeline runtime ashrae default_conditioning_config default_all_configs
              (record { registry = r; hub = [] })
              ((drawn, now) ∷ [])).registry
            id
          ≡ some ps
        → IsHeld ps)
served_values_example =
    served_values_bounded Fixed-IsIeee runtime insertion-Sorts same-SortsStrings ashrae 700
      ((drawn, now) ∷ []) refl Fixed-IsCalibrated
      (
        simple_random_batch-IsUsual Fixed-IsIeee half (λ g. (refl, refl)) (codes "MY-KL-OFF-KLCC")
            (pos 7) 0,
        tt,
      )

-- One call, from its start to the cached values.
abbrev first : Job Fixed
first = job default_all_configs property degraded now

abbrev recorded : PropertyState Fixed
recorded = append_step runtime (send_step property first) first

abbrev after_call : System Fixed
after_call = record {
  property = cache_step (quote_step recorded first).0 first (quote_step recorded first).1;
  calls =
      at
        (at (at (at (at (λ _. idle) 0 (computed first)) 0 (sent first)) 0 (appended first)) 0
          (quoted first (quote_step recorded first).1))
        0 idle;
}

after_call-Reachable : Reachable runtime default_all_configs property after_call
unfolding at
after_call-Reachable =
    next
      (next
        (next (next (next here (by_begin 0 degraded now refl)) (by_send 0 first refl))
          (by_append 0 first refl))
        (by_quote 0 first refl))
      (by_cache 0 first (quote_step recorded first).1 refl)

interleaved_example :
    let s = after_call in
    ((verify runtime.library s.property.chain).chain_valid ≡ true)
    × ((s.property.latest ≡ property.latest)
        ⊎ (Recorded s.property.chain.tokens s.property.latest.latest_rtpmv
            × (s.property.latest.latest_exchange_params.rtpmv ≡ s.property.latest.latest_rtpmv)))
interleaved_example =
    interleaved_calls_verify runtime default_all_configs property after_call property-IsSound
      after_call-Reachable

-- One value is above the value of the land, the other is not.
above_land :
    (((job default_all_configs property steady now).rtpmv ≤? fl 500_000) ≡ false)
    × (((job default_all_configs property degraded now).rtpmv ≤? fl 500_000) ≡ true)
unfolding job compute_all_indicators compute_health_factor compute_rtpmv compute_shf compute_esf
    compute_uss compute_pdp compute_ci compute_effective_age wohler_penalty range_score
    load_from_env
above_land = (refl, refl)

values-differ :
    (job default_all_configs property steady now).rtpmv
    ≢ (job default_all_configs property degraded now).rtpmv
values-differ e = let (p, q) = above_land in false≢true (sym p ∙ ap (λ v. v ≤? fl 500_000) e ∙ q)

cache_goes_stale_example :
    (s : System Fixed) × Reachable runtime default_all_configs property s
    × ((k : ℕ) → s.calls k ≡ idle)
    × ((t : ValuationToken Fixed) × (head s.property.chain ≡ some t)
        × (t.rtpmv ≡ (job default_all_configs property degraded now).rtpmv)
        × (s.property.latest.latest_rtpmv ≡ (job default_all_configs property steady now).rtpmv)
        × (s.property.latest.latest_rtpmv ≢ t.rtpmv))
cache_goes_stale_example =
    cache_goes_stale runtime default_all_configs property steady degraded now now
      property-IsSound.named values-differ

abbrev ticks : List Tick
ticks = record { now = pos 7; clock = λ i. now } ∷ []

-- The simulator's payload, as what every body decodes to.
abbrev payload : WebhookPayload Fixed
payload = (generate_payload half config.property_id (pos 7) 0).0

abbrev decode : Text → Decoded (WebhookPayload Fixed)
decode _ = decoded payload

abbrev fmt : Sprintf
fmt = record { decimal_of = λ n. []; quoted = λ s. s }

abbrev app : App Fixed
app = record {
  server = record { registry = (config.property_id, property) ∷ []; hub = [] };
  receiver = subscribe_webhook (new_webhook_receiver ingest_config);
  looping = true;
}

app-Reachable : App.Reachable decode fmt runtime config app
unfolding start_app bootstrap_all bootstrap_property load_from_env
app-Reachable = App.by_start app refl

abbrev post : Request
post = record { method = method_post; body = codes "{}" }

-- One round, and then the end of the context.
accepted_post_example :
    (app' : App Fixed) × (app'' : App Fixed) × (serve_webhook decode fmt app post
      ≡ some (app', record { status = 202; text = [] }))
    × (app'.server ≡ app.server)
    × (pending app' ≡ queue app payload)
    × (drain runtime config app' (batch_ready now ∷ ctx_done ∷ []) ≡ some app'')
    × (app''.server
        ≡ run_pipeline runtime config default_conditioning_config default_all_configs app.server
            (with_times (queue app payload) (now ∷ [])))
    × (pending app'' ≡ drop 1 (queue app payload))
unfolding subscribe_webhook load_from_env new_webhook_receiver
accepted_post_example =
    accepted_post_processed decode fmt runtime config Fixed-IsIeee app post payload (now ∷ [])
      (ctx_done ∷ []) app-Reachable refl refl refl
      (generate_payload-IsAcceptable Fixed-IsIeee half config.property_id (pos 7) 0 (λ e. cc)
        (λ e. cc) (λ g. (refl, refl)))
      (omega arith) tt
