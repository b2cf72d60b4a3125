-- ===== src/Simulator/Accepted.antt =====
-- What the simulator generates, against what the webhook accepts.
use twinval_go_backend.Prelude.{
  ◌≡◌, ◌≢◌, Bool, true, false, refl, arith, Option, some, if◌then◌else◌,
}
use twinval_go_backend.Prelude.{[]}
use twinval_go_backend.Prelude.Int.{ℤ, pos}
use twinval_go_backend.Prelude.Text.{Text}
use twinval_go_backend.Prelude.{none}
use twinval_go_backend.Prelude.Text.{text_eq, text_eq_refl}
use twinval_go_backend.Ingest.Types.{WebhookPayload, IngestConfig}
use twinval_go_backend.Ingest.Validate.{Sprintf}
use twinval_go_backend.Ingest.Fanout.Laws.{sent}
use twinval_go_backend.Ingest.Webhook.{
  WebhookReceiver, Decoded, decoded, Response, method_post, payload_to_batch, handle_post,
  Reachable,
}
use twinval_go_backend.Ingest.Webhook.Laws.{handle_post-Responds}
use twinval_go_backend.Ingest.Webhook.Responses.{accepted-Outcome}
use twinval_go_backend.Simulator.{posted, post_payload}
use twinval_go_backend.Ingest.Validate.Acceptable.{IsAcceptableReading, IsAcceptable, has_key_iff}
use twinval_go_backend.Ingest.Validate.{has_key, valid_sensor_types}
use twinval_go_backend.Float.Scale.{decimal-IsFinite, shifted-IsFinite}
use twinval_go_backend.Float.{Float64, IsIeee, IsFinite, IsUnit}
use twinval_go_backend.Simulator.{reading, generate_payload}

module _ {W G : Type 0} ⦃d : Float64 W⦄ (laws : IsIeee W) (float64 : G → W × G) where
  -- A draw, and the value that stress puts in its place.
  or_stress-IsFinite :
      (b : Bool) (x y : W) → IsFinite x → IsFinite y → IsFinite (if b then x else y)
  or_stress-IsFinite true x y p q = p
  or_stress-IsFinite false x y p q = q

  acceptable :
      (now : ℤ) (id st zone : Text) (value : W)
      → now ≢ pos 0
      → has_key valid_sensor_types st ≡ true
      → IsFinite value
      → IsAcceptableReading (reading now id st zone value)
  acceptable now id st zone value t k f = record {
    known = (has_key_iff valid_sensor_types st).0 k;
    timed = t;
    finite = f;
  }

  pub generate_payload-IsAcceptable :
      (id : Text) (now : ℤ) (g : G)
      → id ≢ []
      → now ≢ pos 0
      → ((g : G) → IsUnit (float64 g).0)
      → IsAcceptable (generate_payload float64 id now g).0
  unfolding generate_payload
  generate_payload-IsAcceptable id now g n t u = record {
    named = n;
    some_reading = λ e. cc;
    all_readings = (
      acceptable now _ _ _ _ t refl (
          or_stress-IsFinite _ _ _ (decimal-IsFinite laws 2500 (omega arith))
            (shifted-IsFinite laws 100 700 _ (omega arith) (u _))),
      (
        acceptable now _ _ _ _ t refl (
            or_stress-IsFinite _ _ _ (decimal-IsFinite laws 7_000_000 (omega arith))
              (shifted-IsFinite laws 500_000 2_500_000 _ (omega arith) (u _))),
        (
          acceptable now _ _ _ _ t refl
              (shifted-IsFinite laws 200_000 60_000 _ (omega arith) (u _)),
          (
            acceptable now _ _ _ _ t refl
                (shifted-IsFinite laws 400_000 200_000 _ (omega arith) (u _)),
            (
              acceptable now _ _ _ _ t refl
                  (shifted-IsFinite laws 50_000 150_000 _ (omega arith) (u _)),
              (
                acceptable now _ _ _ _ t refl
                    (shifted-IsFinite laws 3000 6000 _ (omega arith) (u _)),
                (
                  acceptable now _ _ _ _ t refl
                      (shifted-IsFinite laws 4000 4500 _ (omega arith) (u _)),
                  (
                    acceptable now _ _ _ _ t refl
                        (shifted-IsFinite laws 2000 4000 _ (omega arith) (u _)),
                    tt,
                  ),
                ),
              ),
            ),
          ),
        ),
      ),
    );
  }

  -- A payload that the simulator generates for a named property, at a time other than zero, is
  -- accepted by the webhook in every state that it can reach, if encoding/json decodes it back: the
  -- response that postPayload gets is 202, and the payload's batch goes to each subscriber that has
  -- room for it.
  pub post_payload_accepted :
      (decode : Text → Decoded (WebhookPayload W)) (marshal : WebhookPayload W → Option Text)
      (fmt : Sprintf) (cfg : IngestConfig W) (w : WebhookReceiver W) (id body : Text) (now : ℤ)
      (g : G)
      → Reachable decode fmt cfg w
      → id ≢ []
      → now ≢ pos 0
      → ((g : G) → IsUnit (float64 g).0)
      → marshal (generate_payload float64 id now g).0 ≡ some body
      → decode body ≡ decoded (generate_payload float64 id now g).0
      → let p = (generate_payload float64 id now g).0 in
        (w' : WebhookReceiver W) × (resp : Response) × (handle_post decode fmt w
            (record { method = method_post; body = body })
          ≡ some (w', resp))
        × (w' ≡ record w { fanout = sent (payload_to_batch p w.cfg) w.fanout })
        × (post_payload marshal (λ b. if text_eq b body then some resp.status else none) p
            ≡ posted 202)
  unfolding post_payload
  post_payload_accepted decode marshal fmt cfg w id body now g r n t u m e =
      let a = generate_payload-IsAcceptable id now g n t u in
      let (w', resp, h, o) =
        handle_post-Responds laws decode fmt cfg w (record { method = method_post; body = body })
          r in
      let (s, k) = accepted-Outcome decode _ refl e a o in
      (w', resp, h, s, rw (post_payload, m, text_eq_refl body, k) refl)
