-- ===== src/Ingest/Tests.antt =====
-- The theorems on internal/ingest at concrete requests, over whole ten-thousandths.
use twinval_go_backend.Prelude.{
  ◌≡◌, ◌↔◌, refl, true, none, some, [], ◌∷◌, All, if◌then◌else◌, replicate,
}
use twinval_go_backend.Prelude.Int.{pos, ◌*ℤ◌}
use twinval_go_backend.Prelude.Text.{Text, codes, text_eq}
use twinval_go_backend.Float.{fl, decimal}
use twinval_go_backend.Float.Fixed.{Fixed, fixed_float}
use twinval_go_backend.Float.Fixed.Laws.{Fixed-IsIeee}
use twinval_go_backend.Condition.Types.{RawSensorReading, sensor_vibration, sensor_water}
use twinval_go_backend.Prelude.{List, arith}
use twinval_go_backend.Condition.Groups.{Sorting}
use twinval_go_backend.Condition.Preprocess.{align_timestamps}
use twinval_go_backend.Ingest.Types.{BmsResponse}
use twinval_go_backend.Ingest.Bms.{bms_response_to_batch}
use twinval_go_backend.Ingest.Bms.Window.{IsLate, align-bms_response_to_batch}
use twinval_go_backend.Channel.Store.{IsClosed}
use twinval_go_backend.Ingest.Types.{
  IngestConfig, default_ingest_config, WebhookReading, WebhookPayload,
}
use twinval_go_backend.Ingest.Validate.{Sprintf, validate_payload}
use twinval_go_backend.Ingest.Validate.Acceptable.{IsAcceptable, validate_payload_iff}
use twinval_go_backend.Ingest.Webhook.{
  WebhookReceiver, Decoded, decoded, malformed, Request, method_post, cancelled, serving,
  new_webhook_receiver, subscribe_webhook, start_webhook, shutdown_webhook, stop_returns, by_start,
  by_cancel, by_subscribe, handle_post,
}
use twinval_go_backend.Ingest.Webhook as Webhook
use twinval_go_backend.Ingest.Webhook.Laws.{handle_post-Responds, stop_terminates}
use twinval_go_backend.Ingest.Webhook.Responses.{Responds}
use twinval_go_backend.Ingest.Bms.{
  BmsAdapter, PollResult, responded, new_bms_adapter, subscribe_bms,
}
use twinval_go_backend.Ingest.Bms as Bms
use twinval_go_backend.Ingest.Bms.Laws.{Polls, poll_once_delivers}

abbrev fmt : Sprintf
fmt = record { decimal_of = λ n. replicate n b'1'; quoted = λ s. s }

abbrev reading : Text → WebhookReading Fixed
reading st = record {
  sensor_id = codes "s1";
  sensor_type = st;
  zone = codes "core";
  timestamp_ns = pos 5;
  value = decimal 300;
  calibration_days_ago = fl 30;
}

abbrev payload : WebhookPayload Fixed
payload = record {
  property_id = codes "P1";
  window_start_ns = pos 1;
  window_end_ns = pos 9;
  readings = reading sensor_vibration ∷ reading sensor_water ∷ [];
}

-- One body decodes.
abbrev decode : Text → Decoded (WebhookPayload Fixed)
decode body = if text_eq body (codes "{}") then decoded payload else malformed (codes "EOF")

abbrev cfg : IngestConfig Fixed
cfg = default_ingest_config

-- A subscriber, then Start, then the end of the context.
abbrev subscribed : WebhookReceiver Fixed
subscribed = subscribe_webhook (new_webhook_receiver cfg)

abbrev started : WebhookReceiver Fixed
started = start_webhook subscribed (some (codes ":8080"))

abbrev ended_context : WebhookReceiver Fixed
ended_context = record started { run = cancelled }

subscribed-Reachable : Webhook.Reachable decode fmt cfg subscribed
subscribed-Reachable =
    Webhook.next (new_webhook_receiver cfg) subscribed Webhook.start
      (by_subscribe (new_webhook_receiver cfg))

started-Reachable : Webhook.Reachable decode fmt cfg started
unfolding new_webhook_receiver subscribe_webhook
started-Reachable =
    Webhook.next subscribed started subscribed-Reachable
      (by_start subscribed (some (codes ":8080")) refl)

ended_context-Reachable : Webhook.Reachable decode fmt cfg ended_context
unfolding start_webhook
ended_context-Reachable =
    Webhook.next started ended_context started-Reachable (by_cancel started refl)

validate_payload_example : (validate_payload fmt payload ≡ none) ↔ IsAcceptable payload
validate_payload_example = validate_payload_iff Fixed-IsIeee fmt payload

abbrev request : Request
request = record { method = method_post; body = codes "{}" }

handle_post_example : Responds decode fmt started request
handle_post_example =
    handle_post-Responds Fixed-IsIeee decode fmt cfg started request started-Reachable

stop_example :
    (w' : WebhookReceiver Fixed) × (shutdown_webhook ended_context ≡ some w')
    × All IsClosed w'.fanout.channels
    × (stop_returns w' ≡ true)
stop_example =
    stop_terminates Fixed-IsIeee decode fmt cfg ended_context ended_context-Reachable refl

-- A poller with an address and one subscriber.
abbrev bms_cfg : IngestConfig Fixed
bms_cfg = record cfg { bms_poll_url = codes "http://bms" }

abbrev polling : BmsAdapter Fixed
polling = subscribe_bms (new_bms_adapter bms_cfg)

abbrev result : PollResult Fixed
result = responded 200 (some (record { property_id = codes "P1"; readings = [] }))

polling-Reachable : Bms.Reachable bms_cfg polling
polling-Reachable =
    Bms.next (new_bms_adapter bms_cfg) polling Bms.start
      (Bms.by_subscribe (new_bms_adapter bms_cfg))

poll_once_example : Polls polling result
poll_once_example = poll_once_delivers bms_cfg polling result polling-Reachable

-- Package sort plays no part.
abbrev untouched : Sorting Fixed
untouched = record { sort_strings = λ ids. ids; sort_by_timestamp = λ rs. rs }

abbrev bms_response : BmsResponse Fixed
bms_response = record {
  property_id = codes "P1";
  readings =
      record {
        sensor_tag = codes "s1";
        type = sensor_vibration;
        zone = codes "core";
        timestamp_ms = pos 1000;
        reading = decimal 300;
        days_since_cal = fl 3;
      }
      ∷ [];
}

abbrev bms_series : List (RawSensorReading Fixed)
bms_series = (bms_response_to_batch bms_response bms_cfg).readings

bms_series-All : All IsLate bms_series
unfolding bms_response_to_batch ◌*ℤ◌
bms_series-All = (omega arith, tt)

bms_window_example :
    align_timestamps untouched
      (fl 0)
      bms_series
      (bms_response_to_batch bms_response bms_cfg).window_end_ns
    ≡ []
bms_window_example =
    align-bms_response_to_batch untouched (fl 0) bms_response bms_cfg bms_series bms_series-All
