-- ===== src/Simulator/Tests.antt =====
-- The simulator's payload at the webhook, over whole ten-thousandths.
use twinval_go_backend.Prelude.{
  ℕ, ◌≡◌, refl, none, some, Option, if◌then◌else◌, replicate, [], ◌∷◌, ◌++◌, ◌==◌, length,
}
use twinval_go_backend.Prelude.Int.{ℤ, pos, negsuc}
use twinval_go_backend.Prelude.Text.{Text, codes, text_eq}
use twinval_go_backend.Float.{decimal}
use twinval_go_backend.Float.Fixed.{Fixed, fixed_float}
use twinval_go_backend.Float.Fixed.Laws.{Fixed-IsIeee}
use twinval_go_backend.Ingest.Types.{WebhookPayload, IngestConfig, default_ingest_config}
use twinval_go_backend.Ingest.Validate.{Sprintf}
use twinval_go_backend.Ingest.Fanout.Laws.{sent}
use twinval_go_backend.Ingest.Webhook.{
  WebhookReceiver, Decoded, decoded, Response, method_post, payload_to_batch, handle_post,
  new_webhook_receiver,
}
use twinval_go_backend.Ingest.Webhook as Webhook
use twinval_go_backend.Simulator.{generate_payload, posted, post_payload}
use twinval_go_backend.Config.{Parsers}
use twinval_go_backend.Simulator.Accepted.{post_payload_accepted}

-- A generator that always draws 0.5.
abbrev half : ℕ → Fixed × ℕ
half g = (decimal 5000, g)

abbrev payload : WebhookPayload Fixed
payload = (generate_payload half (codes "P1") (pos 7) 0).0

abbrev fmt : Sprintf
fmt = record { decimal_of = λ n. replicate n b'1'; quoted = λ s. s }

abbrev marshal : WebhookPayload Fixed → Option Text
marshal _ = some (codes "{}")

abbrev decode : Text → Decoded (WebhookPayload Fixed)
decode _ = decoded payload

abbrev cfg : IngestConfig Fixed
cfg = default_ingest_config

abbrev receiver : WebhookReceiver Fixed
receiver = new_webhook_receiver cfg

post_payload_example :
    (w' : WebhookReceiver Fixed) × (resp : Response) × (handle_post decode fmt receiver
        (record { method = method_post; body = codes "{}" })
      ≡ some (w', resp))
    × (w'
        ≡ record receiver { fanout = sent (payload_to_batch payload receiver.cfg) receiver.fanout })
    × (post_payload marshal (λ b. if text_eq b (codes "{}") then some resp.status else none) payload
        ≡ posted 202)
post_payload_example =
    post_payload_accepted Fixed-IsIeee half decode marshal fmt cfg receiver (codes "P1")
      (codes "{}") (pos 7) 0 Webhook.start (λ e. cc) (λ e. cc) (λ g. (refl, refl)) refl refl

-- A body that shows the time of the readings in strokes, after a sign.
abbrev written : ℤ → Text
written (pos n) = codes "+" ++ replicate n b'1'
written (negsuc n) = codes "-" ++ replicate n b'1'

abbrev read : Text → ℤ
read [] = pos 0
read (c ∷ s) = if c == b'-' then negsuc (length s) else pos (length s)

abbrev stamped : WebhookPayload Fixed → Option Text
stamped p = some (elim p.readings [ [] ↦ [] | r ∷ rs ↦ written r.timestamp_ns ])

abbrev parse : Text → Decoded (WebhookPayload Fixed)
parse s = decoded (generate_payload half (codes "PROP-ASHRAE-001") (read s) 0).0

-- The server that is posted to: each request meets a new receiver.
abbrev answered : Option (WebhookReceiver Fixed × Response) → Option ℕ
answered none = none
answered (some (w, resp)) = some resp.status

abbrev round_trip : Text → Text → Option ℕ
round_trip url body =
    answered (handle_post parse fmt receiver (record { method = method_post; body = body }))

abbrev parsers : Parsers Fixed
parsers = record { atoi = λ s. none; parse_float = λ s. none; to_lower = λ s. s }
