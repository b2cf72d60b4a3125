-- ===== src/Ingest/Webhook.antt =====
-- internal/ingest/webhook.go. The JSON decoder of encoding/json is a parameter, and what net/http
-- calls is an event: a request to the handler, a listener that is open, the end of a context.
pub mod Responses
pub mod Laws
use twinval_go_backend.Prelude.{
  ℕ, ◌≡◌, Bool, true, false, not, Option, none, some, List, map, if◌then◌else◌, ◌>>=◌, [], ◌++◌,
}
use twinval_go_backend.Prelude.Int.{pos}
use twinval_go_backend.Prelude.Text.{Text, codes, text_eq}
use twinval_go_backend.Float.{Float64}
use twinval_go_backend.Condition.Types.{RawSensorReading, RawSensorBatch}
use twinval_go_backend.Ingest.Types.{IngestConfig, WebhookReading, WebhookPayload, IngestError}
use twinval_go_backend.Ingest.Validate.{Sprintf, validate_payload}
use twinval_go_backend.Ingest.Fanout.{
  Fanout, subscriber_buffer, empty, subscribe, broadcast, close_subscribers, receive,
}

-- Where the two goroutines of Start are: not started, serving, after the end of the context, or
-- returned, with `done` closed.
pub data ServeState : Type 0 where
  idle serving cancelled finished : ServeState

pub record WebhookReceiver (W : Type 0) : Type 0 where
  pub cfg : IngestConfig W
  pub fanout : Fanout (RawSensorBatch W)
  pub actual_addr : Text
  pub run : ServeState

-- The result of Decode: a value, or the text of its error.
pub data Decoded (A : Type 0) : Type 0 where
  decoded : A → Decoded A
  malformed : Text → Decoded A

pub record Request : Type 0 where
  pub method : Text
  pub body : Text

-- The status, and the text that http.Error writes (none with WriteHeader alone).
pub record Response : Type 0 where
  pub status : ℕ
  pub text : Text

abbrev pub method_post : Text
method_post = codes "POST"

module _ {W : Type 0} where
  unfoldable pub new_webhook_receiver : IngestConfig W → WebhookReceiver W
  new_webhook_receiver cfg = record {
    cfg = record cfg {
      subscriber_buffer_size = pos (subscriber_buffer cfg.subscriber_buffer_size);
    };
    fanout = empty cfg.subscriber_buffer_size;
    actual_addr = [];
    run = idle;
  }

  unfoldable reading_of : WebhookReading W → RawSensorReading W
  reading_of r = record {
    sensor_id = r.sensor_id;
    sensor_type = r.sensor_type;
    zone = r.zone;
    timestamp_ns = r.timestamp_ns;
    value = r.value;
    calibration_days_ago = r.calibration_days_ago;
  }

  unfoldable pub payload_to_batch : WebhookPayload W → IngestConfig W → RawSensorBatch W
  unfolding reading_of
  payload_to_batch p cfg = record {
    property_id = p.property_id;
    readings = map reading_of p.readings;
    window_start_ns = p.window_start_ns;
    window_end_ns = p.window_end_ns;
    expected_readings_per_sensor = cfg.default_expected_readings_per_sensor;
    property_meta = cfg.default_property_meta;
  }

  unfoldable addr : WebhookReceiver W → Text
  addr w = w.actual_addr

  unfoldable pub subscribe_webhook : WebhookReceiver W → WebhookReceiver W
  unfolding subscribe
  subscribe_webhook w = record w { fanout = subscribe w.fanout }

  unfoldable pub receive_webhook : WebhookReceiver W → ℕ → Option (WebhookReceiver W)
  unfolding receive
  receive_webhook w i = do f ← receive w.fanout i; some (record w { fanout = f })

  -- Start, with the listener's address, or without a listener.
  unfoldable pub start_webhook : WebhookReceiver W → Option Text → WebhookReceiver W
  start_webhook w none = w
  start_webhook w (some listener) = record w { actual_addr = listener; run = serving }

  -- The goroutine after `<-ctx.Done()`. Requests may still arrive: Shutdown gives up after 5 s.
  unfoldable pub shutdown_webhook : WebhookReceiver W → Option (WebhookReceiver W)
  unfolding close_subscribers
  shutdown_webhook w = do
    f ← close_subscribers w.fanout
    some (record w { fanout = f; run = finished })

  -- Stop returns: `<-w.done` does not block, or there is no `done` yet.
  unfoldable pub stop_returns : WebhookReceiver W → Bool
  stop_returns w = elim w.run [
    | idle ↦ true
    | serving ↦ false
    | cancelled ↦ false
    | finished ↦ true
  ]

module _ {W : Type 0} ⦃d : Float64 W⦄ (decode : Text → Decoded (WebhookPayload W))
    (fmt : Sprintf) where
  -- After the decoder. `none` is a panic. Each error of ValidatePayload is an IngestError.
  unfoldable pub accept_payload :
      WebhookReceiver W → WebhookPayload W → Option (WebhookReceiver W × Response)
  unfolding validate_payload payload_to_batch broadcast
  accept_payload w p = elim (validate_payload fmt p) [
    | some e ↦ some (w, record { status = e.code; text = e.message })
    | none ↦ do
      f ← broadcast w.fanout (payload_to_batch p w.cfg)
      some (record w { fanout = f }, record { status = 202; text = [] })
  ]

  unfoldable pub handle_post : WebhookReceiver W → Request → Option (WebhookReceiver W × Response)
  unfolding accept_payload
  handle_post w req =
      if not (text_eq req.method method_post)
      then some (w, record { status = 405; text = codes "method not allowed" })
      else elim (decode req.body) [
        | malformed err ↦ some (w, record { status = 400; text = codes "malformed JSON: " ++ err })
        | decoded p ↦ accept_payload w p
      ]

  -- One step around a receiver, whose Start is called once.
  pub data Step : WebhookReceiver W → WebhookReceiver W → Type 0 where
    by_start : (w : WebhookReceiver W) (l : Option Text) → w.run ≡ idle → Step w (start_webhook w l)
    by_cancel : (w : WebhookReceiver W) → w.run ≡ serving → Step w (record w { run = cancelled })
    by_shutdown :
        (w w' : WebhookReceiver W) → w.run ≡ cancelled → shutdown_webhook w ≡ some w' → Step w w'
    by_subscribe : (w : WebhookReceiver W) → Step w (subscribe_webhook w)
    by_receive : (w w' : WebhookReceiver W) (i : ℕ) → receive_webhook w i ≡ some w' → Step w w'
    by_post :
        (w w' : WebhookReceiver W) (req : Request) (resp : Response)
        → handle_post w req ≡ some (w', resp)
        → Step w w'

  pub data Reachable (cfg : IngestConfig W) : WebhookReceiver W → Type 0 where
    start : Reachable cfg (new_webhook_receiver cfg)
    next : (w w' : WebhookReceiver W) → Reachable cfg w → Step w w' → Reachable cfg w'
