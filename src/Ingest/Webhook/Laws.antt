-- ===== src/Ingest/Webhook/Laws.antt =====
-- The webhook in every state that its callers and its goroutines can reach.
use mathlib.Core.Path.{subst}
use mathlib.Core.Option.{some-injective}
use twinval_go_backend.Ingest.Webhook.Responses.{
  Outcome, not_post, bad_json, unacceptable, accepted, Responds, handle_post_lem,
}
use twinval_go_backend.Prelude.{
  ℕ, ◌≡◌, ◌↔◌, inl, inr, refl, sym, ap, ◌∙◌, true, Option, none, some, arith, All,
}
use twinval_go_backend.Prelude.Text.{Text}
use twinval_go_backend.Float.{Float64, IsIeee}
use twinval_go_backend.Channel.Store.{bind_inv, IsClosed}
use twinval_go_backend.Ingest.Types.{IngestConfig, WebhookPayload}
use twinval_go_backend.Ingest.Validate.{Sprintf}
use twinval_go_backend.Ingest.Fanout.{Fanout, subscribe, receive}
use twinval_go_backend.Ingest.Fanout.Laws.{
  IsSafe, sent, ended, subscribe-IsSafe, receive-IsSafe, close_subscribers_lem, sent-IsSafe,
  ended-IsSafe,
}
use twinval_go_backend.Ingest.Webhook.{
  idle, cancelled, finished, WebhookReceiver, Decoded, Request, Response, new_webhook_receiver,
  payload_to_batch, subscribe_webhook, receive_webhook, start_webhook, shutdown_webhook,
  stop_returns, Step, by_start, by_cancel, by_shutdown, by_subscribe, by_receive, by_post,
  Reachable, start, next,
}

-- The subscribers are safe, and they are stopped exactly when the goroutine has returned.
pub record IsConsistent {W : Type 0} (w : WebhookReceiver W) : Type 0 where
  pub fanout : IsSafe w.fanout
  pub stopped : (w.fanout.stopped ≡ true) ↔ (w.run ≡ finished)

module _ {A : Type 0} where
  subscribe-stopped : (f : Fanout A) → (subscribe f).stopped ≡ f.stopped
  unfolding subscribe
  subscribe-stopped f = ground arith

  receive-stopped : (f f' : Fanout A) (i : ℕ) → receive f i ≡ some f' → f'.stopped ≡ f.stopped
  unfolding receive
  receive-stopped f f' i e = ground arith

  sent-stopped : (x : A) (f : Fanout A) → (sent x f).stopped ≡ f.stopped
  sent-stopped x f = ground arith

module _ {W : Type 0} where
  -- Other subscribers, as stopped as before.
  swap-IsConsistent :
      (w : WebhookReceiver W) (f : _)
      → IsSafe f
      → f.stopped ≡ w.fanout.stopped
      → IsConsistent w
      → IsConsistent (record w { fanout = f })
  swap-IsConsistent w f s e v = record { fanout = s; stopped = rw e v.stopped }

  start-IsConsistent :
      (w : WebhookReceiver W) (l : Option Text)
      → w.run ≡ idle
      → IsConsistent w
      → IsConsistent (start_webhook w l)
  unfolding start_webhook
  start-IsConsistent w none e v = v
  start-IsConsistent w (some l) e v = record {
    fanout = v.fanout;
    stopped = (λ s. ground (arith, v.stopped), λ r. cc);
  }

  shutdown-IsConsistent :
      (w w' : WebhookReceiver W)
      → shutdown_webhook w ≡ some w'
      → IsConsistent w
      → IsConsistent w' × (w'.run ≡ finished)
  unfolding shutdown_webhook
  shutdown-IsConsistent w w' e v =
      let (s, t) = ended-IsSafe w.fanout v.fanout in
      let x : some (record w { fanout = ended w.fanout; run = finished }) ≡ some w' =
        rw (close_subscribers_lem w.fanout v.fanout) at e in
      subst (λ u. IsConsistent u × (u.run ≡ finished)) (some-injective _ _ x)
        (record { fanout = s; stopped = (λ _. refl, λ _. t) }, refl)

module _ {W : Type 0} ⦃d : Float64 W⦄ (laws : IsIeee W) (decode : Text → Decoded (WebhookPayload W))
    (fmt : Sprintf) where
  -- Requests keep the receiver consistent.
  post-IsConsistent :
      (w w' : WebhookReceiver W) (req : Request) (resp : Response)
      → Outcome decode w req w' resp
      → IsConsistent w
      → IsConsistent w'
  post-IsConsistent w _ req _ (not_post resp m s) v = v
  post-IsConsistent w _ req _ (bad_json err resp m e s) v = v
  post-IsConsistent w _ req _ (unacceptable p resp m e a s) v = v
  post-IsConsistent w _ req _ (accepted p m e a) v =
      let batch = payload_to_batch p w.cfg in
      swap-IsConsistent w (sent batch w.fanout) (sent-IsSafe batch w.fanout v.fanout)
        (sent-stopped batch w.fanout) v

  Step-IsConsistent :
      {w w' : WebhookReceiver W} → Step decode fmt w w' → IsConsistent w → IsConsistent w'
  unfolding subscribe_webhook receive_webhook
  Step-IsConsistent (by_start w l e) v = start-IsConsistent w l e v
  Step-IsConsistent (by_cancel w e) v = record {
    fanout = v.fanout;
    stopped = (λ s. ground (arith, v.stopped), λ r. cc);
  }
  Step-IsConsistent (by_shutdown w w' e f) v = (shutdown-IsConsistent w w' f v).0
  Step-IsConsistent (by_subscribe w) v =
      swap-IsConsistent w (subscribe w.fanout) (subscribe-IsSafe w.fanout v.fanout)
        (subscribe-stopped w.fanout) v
  Step-IsConsistent (by_receive w w' i e) v =
      let (f, q, r) = bind_inv (receive w.fanout i) _ w' e in
      subst IsConsistent (some-injective _ _ r) (
        swap-IsConsistent w f (receive-IsSafe w.fanout f i q v.fanout)
          (receive-stopped w.fanout f i q) v)
  Step-IsConsistent (by_post w w' req resp e) v =
      let (u, r, q, o) = handle_post_lem laws decode fmt w req v.fanout in
      let same : u ≡ w' =
        ap (λ (x : WebhookReceiver W × Response). x.0) (some-injective _ _ (sym q ∙ e)) in
      subst IsConsistent same (post-IsConsistent w u req r o v)

  pub Reachable-IsConsistent :
      (cfg : IngestConfig W) (w : WebhookReceiver W) → Reachable decode fmt cfg w → IsConsistent w
  unfolding new_webhook_receiver
  Reachable-IsConsistent cfg _ start = record {
    fanout = record { bounded = tt; phase = inl (refl, refl, tt) };
    stopped = (λ s. cc, λ r. cc);
  }
  Reachable-IsConsistent cfg _ (next w w' r s) =
      Step-IsConsistent s (Reachable-IsConsistent cfg w r)

  -- In every reachable state, whatever the interleaving of the handlers, the subscribers and the
  -- end of the context, handlePost never panics, and it responds: 405 and no change if the method
  -- is not POST, 400 and no change if the body does not decode, 422 and no change if the payload is
  -- not acceptable. Otherwise the response is 202, and the payload's batch goes to each subscriber
  -- that has room for it.
  pub handle_post-Responds :
      (cfg : IngestConfig W) (w : WebhookReceiver W) (req : Request)
      → Reachable decode fmt cfg w
      → Responds decode fmt w req
  handle_post-Responds cfg w req r =
      handle_post_lem laws decode fmt w req (Reachable-IsConsistent cfg w r).fanout

  -- Once the context has ended, the goroutine's shutdown does not panic: it closes every channel
  -- that was handed out, and Stop returns.
  pub stop_terminates :
      (cfg : IngestConfig W) (w : WebhookReceiver W)
      → Reachable decode fmt cfg w
      → w.run ≡ cancelled
      → (w' : WebhookReceiver W) × (shutdown_webhook w ≡ some w')
        × All IsClosed w'.fanout.channels
        × (stop_returns w' ≡ true)
  unfolding shutdown_webhook stop_returns
  stop_terminates cfg w r e =
      let v = Reachable-IsConsistent cfg w r in
      let (s, t) = ended-IsSafe w.fanout v.fanout in
      (
        record w { fanout = ended w.fanout; run = finished },
        rw (close_subscribers_lem w.fanout v.fanout) refl,
        elim s.phase [ inl (q, ids, o) ↦ absurd (ground arith) | inr (q, ids, o) ↦ o ],
        refl,
      )
