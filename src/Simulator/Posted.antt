-- ===== src/Simulator/Posted.antt =====
-- cmd/simulator/main.go against the webhook: what a whole run posts, from any environment.
use twinval_go_backend.Prelude.{ℕ, ◌≤◌, ◌≡◌, Option, some, List, All}
use twinval_go_backend.Prelude.Int.{ℤ, pos_part, neg_part}
use twinval_go_backend.Prelude.Text.{Text}
use twinval_go_backend.Float.{Float64}
use twinval_go_backend.Config as Config
use twinval_go_backend.Ingest.Types.{WebhookPayload, IngestConfig}
use twinval_go_backend.Ingest.Validate.{Sprintf}
use twinval_go_backend.Ingest.Validate.Acceptable.{IsAcceptable}
use twinval_go_backend.Ingest.Webhook.{
  WebhookReceiver, Decoded, decoded, Response, method_post, handle_post, Reachable,
}
use twinval_go_backend.Simulator.{PostResult, posted}
use twinval_go_backend.Simulator.Loop.{Settings}

-- A number of milliseconds whose nanoseconds fit an int64.
abbrev pub Fits : ℤ → Type 0
Fits z = (pos_part z ≤ 9_223_372_036_854) × (neg_part z ≤ 9_223_372_036_854)

module _ {W : Type 0} ⦃d : Float64 W⦄ (decode : Text → Decoded (WebhookPayload W)) (fmt : Sprintf)
    (icfg : IngestConfig W) where
  -- The POST reaches the webhook in a state that it can be in, and its status comes back.
  pub record Answers (round_trip : Text → Option ℕ) (body : Text) : Type 0 where
    pub receiver : WebhookReceiver W
    pub reachable : Reachable decode fmt icfg receiver
    pub answer :
        (w' : WebhookReceiver W) (resp : Response)
        → handle_post decode fmt receiver (record { method = method_post; body = body })
          ≡ some (w', resp)
        → round_trip body ≡ some resp.status

module _ {W : Type 0} (decode : Text → Decoded (WebhookPayload W))
    (marshal : WebhookPayload W → Option Text) where
  -- The payload has a body, which the webhook decodes back.
  abbrev pub Decodes : WebhookPayload W → Type 0
  Decodes p = (body : Text) × (marshal p ≡ some body) × (decode body ≡ decoded p)

module _ {W : Type 0} ⦃d : Float64 W⦄ where
  -- Each payload names the property, meets every check of the webhook, and got 202.
  abbrev pub AreAccepted : Settings → List (WebhookPayload W × PostResult) → Type 0
  AreAccepted cfg = All (λ (e : WebhookPayload W × PostResult).
      (e.0.property_id ≡ cfg.property_id) × IsAcceptable e.0 × (e.1 ≡ posted 202))
