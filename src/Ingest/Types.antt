-- ===== src/Ingest/Types.antt =====
-- internal/ingest/types.go. A time.Duration is its nanoseconds.
use twinval_go_backend.Prelude.{ℕ, ◌*◌, ◌^◌, List, []}
use twinval_go_backend.Prelude.Int.{ℤ, pos}
use twinval_go_backend.Prelude.Text.{Text, codes}
use twinval_go_backend.Float.{Float64, fl}
use twinval_go_backend.Condition.Types.{PropertyMeta}

pub record IngestConfig (W : Type 0) : Type 0 where
  pub webhook_listen_addr : Text
  pub webhook_path : Text
  pub bms_poll_url : Text
  pub bms_poll_interval : ℤ
  pub bms_http_timeout : ℤ
  pub subscriber_buffer_size : ℤ
  pub default_property_meta : PropertyMeta W
  pub default_expected_readings_per_sensor : ℤ

pub record WebhookReading (W : Type 0) : Type 0 where
  pub sensor_id : Text
  pub sensor_type : Text
  pub zone : Text
  pub timestamp_ns : ℤ
  pub value : W
  pub calibration_days_ago : W

pub record WebhookPayload (W : Type 0) : Type 0 where
  pub property_id : Text
  pub window_start_ns : ℤ
  pub window_end_ns : ℤ
  pub readings : List (WebhookReading W)

pub record BmsReading (W : Type 0) : Type 0 where
  pub sensor_tag : Text
  pub type : Text
  pub zone : Text
  pub timestamp_ms : ℤ
  pub reading : W
  pub days_since_cal : W

pub record BmsResponse (W : Type 0) : Type 0 where
  pub property_id : Text
  pub readings : List (BmsReading W)

pub record IngestError : Type 0 where
  pub code : ℕ
  pub message : Text

abbrev new_bad_request : Text → IngestError
new_bad_request msg = record { code = 400; message = msg }

abbrev pub new_unprocessable : Text → IngestError
new_unprocessable msg = record { code = 422; message = msg }

-- time.Second.
abbrev pub seconds : ℕ → ℤ
seconds n = pos (n * 10 ^ 9)

module _ {W : Type 0} ⦃d : Float64 W⦄ where
  abbrev pub default_ingest_config : IngestConfig W
  default_ingest_config = record {
    webhook_listen_addr = codes ":8080";
    webhook_path = codes "/webhook/sensors";
    bms_poll_url = [];
    bms_poll_interval = seconds 30;
    bms_http_timeout = seconds 10;
    subscriber_buffer_size = pos 64;
    default_property_meta = record {
      chronological_age = fl 0;
      maintenance_sensitivity = fl 0;
      condition_quality = fl 0;
    };
    default_expected_readings_per_sensor = pos 1;
  }
