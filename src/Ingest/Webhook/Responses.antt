-- ===== src/Ingest/Webhook/Responses.antt =====
-- internal/ingest/webhook.go: handlePost by what the request is.
use mathlib.Core.Path.{subst}
use twinval_go_backend.Prelude.{
  ◌≡◌, ◌≢◌, ◌⊎◌, inl, inr, refl, sym, ap, ◌∙◌, Option, none, some, arith, Bool-cases, Option-cases,
  [], ◌++◌,
}
use twinval_go_backend.Prelude.Text.{Text, codes, text_eq, text_eq_iff}
use twinval_go_backend.Float.{Float64, IsIeee}
use twinval_go_backend.Ingest.Types.{WebhookPayload}
use twinval_go_backend.Ingest.Validate.{Sprintf, validate_payload}
use twinval_go_backend.Ingest.Validate.Acceptable.{
  IsAcceptable, validate_payload_iff, validate_payload-code,
}
use twinval_go_backend.Ingest.Fanout.Laws.{IsSafe, sent, broadcast_lem}
use twinval_go_backend.Ingest.Webhook.{
  WebhookReceiver, Decoded, decoded, malformed, Request, Response, method_post, payload_to_batch,
  accept_payload, handle_post,
}

Decoded-cases :
    {A : Type 0} (r : Decoded A) → ((e : Text) × (r ≡ malformed e)) ⊎ ((a : A) × (r ≡ decoded a))
Decoded-cases (malformed e) = inl (e, refl)
Decoded-cases (decoded a) = inr (a, refl)

module _ {W : Type 0} ⦃d : Float64 W⦄ (decode : Text → Decoded (WebhookPayload W)) where
  -- What a request does to the receiver, and its response, by what the request is.
  pub data Outcome (w : WebhookReceiver W) (req : Request)
      : WebhookReceiver W → Response → Type 0 where
    not_post :
        (resp : Response) → req.method ≢ method_post → resp.status ≡ 405 → Outcome w req w resp
    bad_json :
        (err : Text) (resp : Response)
        → req.method ≡ method_post
        → decode req.body ≡ malformed err
        → resp.status ≡ 400
        → Outcome w req w resp
    unacceptable :
        (p : WebhookPayload W) (resp : Response)
        → req.method ≡ method_post
        → decode req.body ≡ decoded p
        → ¬ IsAcceptable p
        → resp.status ≡ 422
        → Outcome w req w resp
    accepted :
        (p : WebhookPayload W)
        → req.method ≡ method_post
        → decode req.body ≡ decoded p
        → IsAcceptable p
        → Outcome w req
            (record w { fanout = sent (payload_to_batch p w.cfg) w.fanout })
            (record { status = 202; text = [] })

  -- A response comes about, and it is the right one.
  abbrev pub Responds : Sprintf → WebhookReceiver W → Request → Type 0
  Responds fmt w req =
      (w' : WebhookReceiver W) × (resp : Response) × (handle_post decode fmt w req
        ≡ some (w', resp))
      × Outcome w req w' resp

module _ {W : Type 0} ⦃d : Float64 W⦄ (decode : Text → Decoded (WebhookPayload W)) where
  same : {p q : WebhookPayload W} → decoded p ≡ decoded q → p ≡ q
  same e = cc

  -- The outcome of a POST whose body decodes to an acceptable payload.
  pub accepted-Outcome :
      {w w' : WebhookReceiver W} {req : Request} {resp : Response} (p : WebhookPayload W)
      → req.method ≡ method_post
      → decode req.body ≡ decoded p
      → IsAcceptable p
      → Outcome decode w req w' resp
      → (w' ≡ record w { fanout = sent (payload_to_batch p w.cfg) w.fanout })
        × (resp ≡ record { status = 202; text = [] })
  accepted-Outcome p m e a (not_post resp n s) = absurd (n m)
  accepted-Outcome p m e a (bad_json err resp n f s) = cc
  accepted-Outcome p m e a (unacceptable q resp n f b s) =
      absurd (b (subst IsAcceptable (same (sym e ∙ f)) a))
  accepted-Outcome {w} p m e a (accepted q n f b) = (
    ap (λ x. record w { fanout = sent (payload_to_batch x w.cfg) w.fanout }) (same (sym f ∙ e)),
    refl,
  )

module _ {W : Type 0} ⦃d : Float64 W⦄ (laws : IsIeee W) (decode : Text → Decoded (WebhookPayload W))
    (fmt : Sprintf) where
  pub handle_post_lem :
      (w : WebhookReceiver W) (req : Request) → IsSafe w.fanout → Responds decode fmt w req
  unfolding handle_post accept_payload
  handle_post_lem w req v = elim (Bool-cases (text_eq req.method method_post)) [
    | inr m ↦ (
      w,
      record { status = 405; text = codes "method not allowed" },
      rw m refl,
      not_post _ (λ e. ground (arith, text_eq_iff req.method method_post)) refl,
    )
    | inl m ↦
        let post : req.method ≡ method_post = (text_eq_iff req.method method_post).0 m in
        elim (Decoded-cases (decode req.body)) [
          | inl (err, e) ↦ (
            w,
            record { status = 400; text = codes "malformed JSON: " ++ err },
            rw (m, e) refl,
            bad_json err _ post e refl,
          )
          | inr (p, e) ↦ elim (Option-cases (validate_payload fmt p)) [
            | inl f ↦ (
              record w { fanout = sent (payload_to_batch p w.cfg) w.fanout },
              record { status = 202; text = [] },
              rw (m, e, accept_payload, f, broadcast_lem w.fanout (payload_to_batch p w.cfg) v)
                  refl,
              accepted p post e ((validate_payload_iff laws fmt p).0 f),
            )
            | inr (x, f) ↦ (
              w,
              record { status = x.code; text = x.message },
              rw (m, e, accept_payload, f) refl,
              unacceptable p _ post e (λ a. refuted f ((validate_payload_iff laws fmt p).1 a))
                  (validate_payload-code laws fmt p x f),
            )
          ]
        ]
  ]
    where
      refuted : {A : Type 0} {o : Option A} {x : A} → o ≡ some x → o ≡ none → ⊥
      refuted e f = cc
