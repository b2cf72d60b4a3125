-- ===== src/Ingest/Bms/Window.antt =====
-- The poller's batches in AlignTimestamps: their window ends at 0.
use twinval_go_backend.Prelude.{◌≡◌, refl, List, [], ◌∷◌, All, arith}
use twinval_go_backend.Prelude.Int.{pos, ◌≤ℤ◌}
use twinval_go_backend.Condition.Types.{RawSensorReading}
use twinval_go_backend.Condition.Groups.{Sorting, group_by, group_onto}
use twinval_go_backend.Condition.Preprocess.{up_to, align_timestamps}
use twinval_go_backend.Ingest.Types.{IngestConfig, BmsResponse}
use twinval_go_backend.Ingest.Bms.{bms_response_to_batch}

module _ {W : Type 0} where
  -- After 1970.
  abbrev pub IsLate : RawSensorReading W → Type 0
  IsLate r = pos 1 ≤ℤ r.timestamp_ns

  up_to_zero : (rs : List (RawSensorReading W)) → All IsLate rs → up_to (pos 0) rs ≡ []
  unfolding up_to
  up_to_zero [] h = refl
  up_to_zero (r ∷ rs) (l, h) = ground (arith, up_to_zero rs h)

  -- Whatever series of later readings, AlignTimestamps at the window end of a poller's batch finds no
  -- sensor at all.
  pub align-bms_response_to_batch :
      (lib : Sorting W) (zero : W) (resp : BmsResponse W) (cfg : IngestConfig W)
      (series : List (RawSensorReading W))
      → All IsLate series
      → align_timestamps lib zero series (bms_response_to_batch resp cfg).window_end_ns ≡ []
  unfolding align_timestamps group_by group_onto bms_response_to_batch
  align-bms_response_to_batch lib zero resp cfg series h = rw (up_to_zero series h) refl
