-- ===== src/Server/App/Laws.antt =====
-- From an accepted POST to the registry.
use mathlib.Core.Path.{subst}
use mathlib.Core.Option.{some-injective}
use twinval_go_backend.Prelude.{
  ◌≤◌, ◌≡◌, ◌∙◌, refl, sym, ap, true, false, some, map, drop, if◌then◌else◌, List, [], ◌∷◌, ◌++◌,
  arith, length, length-append, Bool-cases, inl, inr, ltb,
}
use twinval_go_backend.Prelude.Text.{Text}
use twinval_go_backend.Float.{Float64, IsIeee}
use twinval_go_backend.Channel.{Channel, at, pop}
use twinval_go_backend.Channel.Store.{bind_inv}
use twinval_go_backend.Compute.Configs.{default_all_configs}
use twinval_go_backend.Condition.Types.{RawSensorBatch, default_conditioning_config}
use twinval_go_backend.Ingest.Types.{WebhookPayload}
use twinval_go_backend.Ingest.Validate.{Sprintf}
use twinval_go_backend.Ingest.Validate.Acceptable.{IsAcceptable}
use twinval_go_backend.Ingest.Fanout.{Fanout, subscribe, receive}
use twinval_go_backend.Ingest.Fanout.Laws.{IsSafe, sent}
use twinval_go_backend.Ingest.Webhook.{
  WebhookReceiver, Decoded, decoded, Request, Response, method_post, payload_to_batch,
  new_webhook_receiver, subscribe_webhook, receive_webhook,
}
use twinval_go_backend.Ingest.Webhook.Responses.{
  Outcome, not_post, bad_json, unacceptable, accepted, handle_post_lem, accepted-Outcome,
}
use twinval_go_backend.Config.{AppConfig}
use twinval_go_backend.Server.Bootstrap.{bootstrap_all}
use twinval_go_backend.Server.Pipeline.{Runtime, Times, Server, process_batch, run_pipeline}
use twinval_go_backend.Server.App.{
  App, Select, ctx_done, batch_ready, start_app, serve_webhook, front, pipeline_step, drain,
}

-- The loop takes no further batch: the rounds are over, or the context has ended.
abbrev pub Ends : List Select → Type 0
Ends [] = Unit
Ends (ctx_done ∷ rest) = Unit
Ends (batch_ready t ∷ rest) = ⊥

module _ {W : Type 0} where
  -- The one open channel, with what waits in it.
  abbrev running : List (RawSensorBatch W) → Fanout (RawSensorBatch W)
  running xs = record {
    buffer_size = 64;
    channels = record { buffer_size = 64; buffer = xs; is_closed = false } ∷ [];
    subscribers = 0 ∷ [];
    stopped = false;
  }

  abbrev pub waiting : List (Channel (RawSensorBatch W)) → List (RawSensorBatch W)
  waiting [] = []
  waiting (ch ∷ chs) = ch.buffer

  -- The batches that batchCh holds.
  abbrev pub pending : App W → List (RawSensorBatch W)
  pending app = waiting app.receiver.fanout.channels

  -- The batches that wait once a payload has been accepted: a full channel drops its batch.
  abbrev pub queue : App W → WebhookPayload W → List (RawSensorBatch W)
  queue app p =
      if ltb (length (pending app)) 64
      then pending app ++ (payload_to_batch p app.receiver.cfg ∷ [])
      else pending app

  -- Each batch with the clock's readings for it.
  abbrev pub with_times : List (RawSensorBatch W) → List Times → List (RawSensorBatch W × Times)
  with_times [] ts = []
  with_times (x ∷ xs) [] = []
  with_times (x ∷ xs) (t ∷ ts) = (x, t) ∷ with_times xs ts

  abbrev IsRunning : App W → Type 0
  IsRunning app =
      (xs : List (RawSensorBatch W)) × (app.receiver.fanout ≡ running xs) × (length xs ≤ 64)

  running-IsSafe : (xs : List (RawSensorBatch W)) → length xs ≤ 64 → IsSafe (running xs)
  running-IsSafe xs h = record { bounded = (h, tt); phase = inl (refl, refl, (refl, tt)) }

module _ {W : Type 0} ⦃d : Float64 W⦄ (decode : Text → Decoded (WebhookPayload W)) (fmt : Sprintf)
    (rt : Runtime W) (cfg : AppConfig W) where
  -- The requests at the webhook and the rounds of the loop, in any order. `by_others` is whatever
  -- else happens to the registry and the hub.
  pub data Reachable : App W → Type 0 where
    by_start : (app : App W) → start_app cfg ≡ some app → Reachable app
    by_post :
        (app app' : App W) (req : Request) (resp : Response)
        → Reachable app
        → serve_webhook decode fmt app req ≡ some (app', resp)
        → Reachable app'
    by_round :
        (app app' : App W) (s : Select)
        → Reachable app
        → app.looping ≡ true
        → pipeline_step rt cfg app s ≡ some app'
        → Reachable app'
    by_others : (app : App W) (s : Server W) → Reachable app → Reachable (record app { server = s })

  start-IsRunning : (app : App W) → start_app cfg ≡ some app → IsRunning app
  unfolding start_app new_webhook_receiver subscribe_webhook subscribe
  start-IsRunning app e =
      let (r, q, k) = bind_inv (bootstrap_all cfg []) _ app e in
      ([], sym (ap (λ a. a.receiver.fanout) (some-injective _ _ k)), omega arith)

  -- The app after a round, whatever waits behind the batch that is taken.
  abbrev after_round : App W → RawSensorBatch W → List (RawSensorBatch W) → Times → App W
  after_round app x xs now = record {
    server = process_batch rt cfg app.server x default_conditioning_config default_all_configs now;
    receiver = record app.receiver { fanout = running xs };
    looping = app.looping;
  }

  round_lem :
      (app : App W) (x : RawSensorBatch W) (xs : List (RawSensorBatch W)) (now : Times)
      → app.receiver.fanout ≡ running (x ∷ xs)
      → pipeline_step rt cfg app (batch_ready now) ≡ some (after_round app x xs now)
  unfolding pipeline_step front receive_webhook receive at pop
  round_lem app x xs now e =
      subst
        (λ f.
          pipeline_step rt cfg (record app { receiver = record app.receiver { fanout = f } })
            (batch_ready now)
          ≡ some (after_round app x xs now))
        (sym e) refl

  round-IsRunning :
      (app app' : App W) (s : Select)
      → pipeline_step rt cfg app s ≡ some app'
      → IsRunning app
      → IsRunning app'
  unfolding pipeline_step front
  round-IsRunning app app' ctx_done e v = subst IsRunning (some-injective _ _ e) v
  round-IsRunning app app' (batch_ready now) e ([], f, h) =
      let stuck = rw (pipeline_step, f) at e in cc
  round-IsRunning app app' (batch_ready now) e (x ∷ xs, f, h) =
      let stepped = some-injective _ _ (sym (round_lem app x xs now f) ∙ e) in
      (xs, sym (ap (λ a. a.receiver.fanout) stepped), omega arith)

  stopped :
      (rest : List Select) (app : App W) → app.looping ≡ false → drain rt cfg app rest ≡ some app
  unfolding drain
  stopped [] app e = refl
  stopped (s ∷ rest) app e = rw e refl

  -- The batches that are taken before the loop returns are processed in their order.
  drain_lem :
      (xs : List (RawSensorBatch W)) (ts : List Times) (rest : List Select) (app : App W)
      → app.receiver.fanout ≡ running xs
      → app.looping ≡ true
      → length ts ≤ length xs
      → Ends rest
      → (app'' : App W) × (drain rt cfg app (map batch_ready ts ++ rest) ≡ some app'')
        × (app''.server
            ≡ run_pipeline rt cfg default_conditioning_config default_all_configs app.server
                (with_times xs ts))
        × (app''.receiver.fanout ≡ running (drop (length ts) xs))
  unfolding drain run_pipeline pipeline_step
  drain_lem [] [] [] app e l h n = (app, refl, refl, e)
  drain_lem (x ∷ xs) [] [] app e l h n = (app, refl, refl, e)
  drain_lem [] [] (ctx_done ∷ rest) app e l h n =
      (record app { looping = false }, rw (drain, l) (stopped rest _ refl), refl, e)
  drain_lem (x ∷ xs) [] (ctx_done ∷ rest) app e l h n =
      (record app { looping = false }, rw (drain, l) (stopped rest _ refl), refl, e)
  drain_lem xs [] (batch_ready t ∷ rest) app e l h n = absurd n
  drain_lem [] (t ∷ ts) rest app e l h n = absurd (omega arith)
  drain_lem (x ∷ xs) (t ∷ ts) rest app e l h n =
      let (app'', p, q, r) = drain_lem xs ts rest (after_round app x xs t) refl l (omega arith) n in
      (app'', rw (drain, l, round_lem app x xs t e) p, q, r)

  Outcome-IsRunning :
      (w : WebhookReceiver W) (req : Request) (xs : List (RawSensorBatch W))
      {w' : WebhookReceiver W} {resp : Response}
      → w.fanout ≡ running xs
      → length xs ≤ 64
      → Outcome decode w req w' resp
      → (ys : List (RawSensorBatch W)) × (w'.fanout ≡ running ys) × (length ys ≤ 64)
  Outcome-IsRunning w req xs f h (not_post resp m e) = (xs, f, h)
  Outcome-IsRunning w req xs f h (bad_json err resp m e q) = (xs, f, h)
  Outcome-IsRunning w req xs f h (unacceptable p resp m e a q) = (xs, f, h)
  Outcome-IsRunning w req xs f h (accepted p m e a) =
      let x = payload_to_batch p w.cfg in
      elim (Bool-cases (ltb (length xs) 64)) [
        | inl room ↦ (xs ++ (x ∷ []), rw (f, room) refl, ground (arith, length-append xs (x ∷ [])))
        | inr full ↦ (xs, rw (f, full) refl, h)
      ]

  Reachable-IsRunning : (laws : IsIeee W) (app : App W) → Reachable app → IsRunning app
  unfolding serve_webhook
  Reachable-IsRunning laws _ (by_start app e) = start-IsRunning app e
  Reachable-IsRunning laws _ (by_post app app' req resp r e) =
      let (xs, f, h) = Reachable-IsRunning laws app r in
      let (w, resp', q, o) =
        handle_post_lem laws decode fmt app.receiver req (rw f (running-IsSafe xs h)) in
      let same = some-injective _ _ (rw (serve_webhook, q) at e) in
      let (ys, g, k) = Outcome-IsRunning app.receiver req xs f h o in
      (ys, ap (λ p. p.0.receiver.fanout) (sym same) ∙ g, k)
  Reachable-IsRunning laws _ (by_round app app' s r l e) =
      round-IsRunning app app' s e (Reachable-IsRunning laws app r)
  Reachable-IsRunning laws _ (by_others app s r) = Reachable-IsRunning laws app r

  queue-running :
      (app : App W) (p : WebhookPayload W) (xs : List (RawSensorBatch W))
      → app.receiver.fanout ≡ running xs
      → sent (payload_to_batch p app.receiver.cfg) app.receiver.fanout ≡ running (queue app p)
  queue-running app p xs f = elim (Bool-cases (ltb (length xs) 64)) [
    | inl room ↦ rw (f, room) refl
    | inr full ↦ rw (f, full) refl
  ]

  -- In every state of the server that requests at the webhook, rounds of runPipeline and whatever else
  -- happens to the registry lead to, while runPipeline has not returned: a POST of an acceptable
  -- payload gets 202 and changes nothing of the registry, and its batch joins the end of the queue,
  -- unless 64 batches wait already: then it is dropped, in spite of the 202. Of the queue, each
  -- further round processes the oldest batch, until the context ends, which leaves the rest
  -- unprocessed: as many rounds as batches wait, the context still alive, process all of them in
  -- the order of their acceptance.
  pub accepted_post_processed :
      (laws : IsIeee W) (app : App W) (req : Request) (p : WebhookPayload W) (ts : List Times)
      (rest : List Select)
      → Reachable app
      → app.looping ≡ true
      → req.method ≡ method_post
      → decode req.body ≡ decoded p
      → IsAcceptable p
      → length ts ≤ length (queue app p)
      → Ends rest
      → (app' : App W) × (app'' : App W) × (serve_webhook decode fmt app req
          ≡ some (app', record { status = 202; text = [] }))
        × (app'.server ≡ app.server)
        × (pending app' ≡ queue app p)
        × (drain rt cfg app' (map batch_ready ts ++ rest) ≡ some app'')
        × (app''.server
            ≡ run_pipeline rt cfg default_conditioning_config default_all_configs app.server
                (with_times (queue app p) ts))
        × (pending app'' ≡ drop (length ts) (queue app p))
  unfolding serve_webhook
  accepted_post_processed laws app req p ts rest r l m e a n ends =
      let (xs, f, h) = Reachable-IsRunning laws app r in
      let app' : App W = record app {
        receiver = record app.receiver {
          fanout = sent (payload_to_batch p app.receiver.cfg) app.receiver.fanout;
        };
      } in
      let (w, resp, q, o) =
        handle_post_lem laws decode fmt app.receiver req (rw f (running-IsSafe xs h)) in
      let (u, v) = accepted-Outcome decode p m e a o in
      let held = queue-running app p xs f in
      let (app'', d, s, k) = drain_lem (queue app p) ts rest app' held l n ends in
      (
        app',
        app'',
        rw (serve_webhook, q, u, v) refl,
        refl,
        ap (λ g. waiting g.channels) held,
        d,
        s,
        ap (λ g. waiting g.channels) k,
      )
