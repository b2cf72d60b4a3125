-- ===== src/Ingest/Bms.antt =====
-- internal/ingest/bms.go. The HTTP client and the JSON decoder are parameters: their outcome at one
-- poll is an event. The poller has the methods of Ingest.Fanout for its subscribers.
pub mod Laws
pub mod Window
use twinval_go_backend.Prelude.{
  ℕ, zero, suc, ◌*◌, ◌≡◌, Bool, true, false, not, Option, none, some, List, [], map, if◌then◌else◌,
  ◌==◌, ◌>>=◌,
}
use twinval_go_backend.Prelude.Int.{ℤ, pos, negsuc, ◌*ℤ◌, int64}
use twinval_go_backend.Prelude.Text.{Text, text_eq}
use twinval_go_backend.Condition.Types.{RawSensorReading, RawSensorBatch}
use twinval_go_backend.Ingest.Types.{IngestConfig, BmsReading, BmsResponse, seconds}
use twinval_go_backend.Ingest.Fanout.{
  Fanout, subscriber_buffer, empty, subscribe, broadcast, close_subscribers, receive,
}

-- Where the goroutine of Start is: not started, at the first poll, at the select, after the end of
-- the context, or returned, with `done` closed.
pub data PollState : Type 0 where
  idle first_poll waiting cancelled finished : PollState

pub record BmsAdapter (W : Type 0) : Type 0 where
  pub cfg : IngestConfig W
  pub fanout : Fanout (RawSensorBatch W)
  pub run : PollState

-- What one request gives: no request, no response, or a status with the decoded body.
pub data PollResult (W : Type 0) : Type 0 where
  request_error : PollResult W
  client_error : PollResult W
  responded : ℕ → Option (BmsResponse W) → PollResult W

-- `if d <= 0 { d = default }`.
abbrev duration_or : ℤ → ℤ → ℤ
duration_or default (pos zero) = default
duration_or default (pos (suc n)) = pos (suc n)
duration_or default (negsuc n) = default

module _ {W : Type 0} where
  unfoldable pub new_bms_adapter : IngestConfig W → BmsAdapter W
  new_bms_adapter cfg = record {
    cfg = record cfg {
      subscriber_buffer_size = pos (subscriber_buffer cfg.subscriber_buffer_size);
      bms_http_timeout = duration_or (seconds 10) cfg.bms_http_timeout;
    };
    fanout = empty cfg.subscriber_buffer_size;
    run = idle;
  }

  unfoldable poll_interval : BmsAdapter W → ℤ
  poll_interval b = duration_or (seconds 30) b.cfg.bms_poll_interval

  unfoldable bms_reading_of : BmsReading W → RawSensorReading W
  unfolding int64
  bms_reading_of r = record {
    sensor_id = r.sensor_tag;
    sensor_type = r.type;
    zone = r.zone;
    timestamp_ns = int64 (r.timestamp_ms *ℤ pos 1_000_000);
    value = r.reading;
    calibration_days_ago = r.days_since_cal;
  }

  unfoldable pub bms_response_to_batch : BmsResponse W → IngestConfig W → RawSensorBatch W
  unfolding bms_reading_of
  bms_response_to_batch resp cfg = record {
    property_id = resp.property_id;
    readings = map bms_reading_of resp.readings;
    window_start_ns = pos 0;
    window_end_ns = pos 0;
    expected_readings_per_sensor = cfg.default_expected_readings_per_sensor;
    property_meta = cfg.default_property_meta;
  }

  unfoldable pub subscribe_bms : BmsAdapter W → BmsAdapter W
  unfolding subscribe
  subscribe_bms b = record b { fanout = subscribe b.fanout }

  unfoldable pub broadcast_bms : BmsAdapter W → RawSensorBatch W → Option (BmsAdapter W)
  unfolding broadcast
  broadcast_bms b batch = do f ← broadcast b.fanout batch; some (record b { fanout = f })

  unfoldable pub close_bms : BmsAdapter W → Option (BmsAdapter W)
  unfolding close_subscribers
  close_bms b = do f ← close_subscribers b.fanout; some (record b { fanout = f })

  -- `none` is a panic.
  unfoldable pub poll_once : BmsAdapter W → PollResult W → Option (BmsAdapter W)
  unfolding bms_response_to_batch broadcast_bms
  poll_once b result = if text_eq b.cfg.bms_poll_url [] then some b else elim result [
    | request_error ↦ some b
    | client_error ↦ some b
    | responded status body ↦ if not (status == 200) then some b else elim body [
      | none ↦ some b
      | some resp ↦ broadcast_bms b (bms_response_to_batch resp b.cfg)
    ]
  ]

  unfoldable pub start_bms : BmsAdapter W → BmsAdapter W
  start_bms b = record b { run = first_poll }

  -- Stop returns: `<-b.done` does not block, or there is no `done` yet.
  unfoldable pub stop_returns_bms : BmsAdapter W → Bool
  stop_returns_bms b = elim b.run [
    | idle ↦ true
    | first_poll ↦ false
    | waiting ↦ false
    | cancelled ↦ false
    | finished ↦ true
  ]

  -- One step around an adapter, whose Start is called once: the poll of pollLoop before its loop
  -- and at a tick, the end of the context, and the deferred calls.
  pub data Step : BmsAdapter W → BmsAdapter W → Type 0 where
    by_start : (b : BmsAdapter W) → b.run ≡ idle → Step b (start_bms b)
    by_first :
        (b b' : BmsAdapter W) (r : PollResult W)
        → b.run ≡ first_poll
        → poll_once b r ≡ some b'
        → Step b (record b' { run = waiting })
    by_tick :
        (b b' : BmsAdapter W) (r : PollResult W)
        → b.run ≡ waiting
        → poll_once b r ≡ some b'
        → Step b b'
    by_cancel : (b : BmsAdapter W) → b.run ≡ waiting → Step b (record b { run = cancelled })
    by_close :
        (b b' : BmsAdapter W)
        → b.run ≡ cancelled
        → close_bms b ≡ some b'
        → Step b (record b' { run = finished })
    by_subscribe : (b : BmsAdapter W) → Step b (subscribe_bms b)
    by_receive :
        (b : BmsAdapter W) (f : Fanout (RawSensorBatch W)) (i : ℕ)
        → receive b.fanout i ≡ some f
        → Step b (record b { fanout = f })

  pub data Reachable (cfg : IngestConfig W) : BmsAdapter W → Type 0 where
    start : Reachable cfg (new_bms_adapter cfg)
    next : (b b' : BmsAdapter W) → Reachable cfg b → Step b b' → Reachable cfg b'
