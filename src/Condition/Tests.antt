-- ===== src/Condition/Tests.antt =====
-- The theorems on internal/condition at concrete readings, over whole ten-thousandths.
use twinval_go_backend.Prelude.{◌≡◌, ◌⊎◌, none, some, refl, arith, List, [], ◌∷◌}
use twinval_go_backend.Prelude.Int.{ℤ, pos}
use twinval_go_backend.Prelude.Text.{codes}
use twinval_go_backend.Float.{fl, decimal}
use twinval_go_backend.Float.Fixed.{Fixed, fixed_float}
use twinval_go_backend.Float.Fixed.Laws.{Fixed-IsIeee}
use twinval_go_backend.Compute.Types.{ConditionedData}
use twinval_go_backend.Compute.Configs.{default_all_configs}
use twinval_go_backend.Compute.Valid.{IsClean}
use twinval_go_backend.Condition.Types.{
  RawSensorReading, RawSensorBatch, IntegrityReport, sensor_vibration, default_conditioning_config,
}
use twinval_go_backend.Condition.Integrity.Report.{IsScored}
use twinval_go_backend.Condition.Process.{process}
use twinval_go_backend.Condition.Process.Clean.{process-IsClean}
use twinval_go_backend.Condition.Process.Defaults.{default_conditioning_config-IsSettled}
use twinval_go_backend.Condition.Process.Met.{Fixed-IsCalibrated, same-SortsStrings}
use twinval_go_backend.Condition.Groups.{Sorting, group_by, append_at, group_onto}
use twinval_go_backend.Prelude.Maps.{lookup}
use twinval_go_backend.Condition.Sorted.{insertion, insertion-Sorts, insertion_sort}
use twinval_go_backend.Condition.Preprocess.{align_timestamps, up_to, last_value}
use twinval_go_backend.Condition.Preprocess.Align.{IsCandidate, IsNewest, align_timestamps-IsNewest}

-- The identity sorts lists that are in order already.
abbrev sorted : Sorting Fixed
sorted = record { sort_strings = λ ids. ids; sort_by_timestamp = λ rs. rs }

abbrev reading : ℤ → Fixed → RawSensorReading Fixed
reading now v = record {
  sensor_id = codes "v1";
  sensor_type = sensor_vibration;
  zone = codes "lobby";
  timestamp_ns = now;
  value = v;
  calibration_days_ago = fl 3;
}

-- The second step is above the limit of 0.5.
abbrev readings : List (RawSensorReading Fixed)
readings =
    reading (pos 1) (decimal 100)
    ∷ reading (pos 2) (decimal 200)
    ∷ reading (pos 3) (decimal 9000)
    ∷ []

-- Not in order, and one of them too late.
abbrev unordered : List (RawSensorReading Fixed)
unordered =
    reading (pos 3) (decimal 300)
    ∷ reading (pos 1) (decimal 100)
    ∷ reading (pos 9) (decimal 900)
    ∷ reading (pos 2) (decimal 200)
    ∷ []

align_timestamps_example :
    let entry = lookup (codes "v1") (align_timestamps insertion (fl 0) unordered (pos 5)) in
    ((entry ≡ none)
      × ((r : RawSensorReading Fixed) → ¬ IsCandidate (codes "v1") (pos 5) unordered r))
    ⊎ ((r : RawSensorReading Fixed) × (entry ≡ some r.value)
        × IsNewest (codes "v1") (pos 5) unordered r)
align_timestamps_example =
    align_timestamps-IsNewest insertion (fl 0) unordered (pos 5) (codes "v1") insertion-Sorts

align_timestamps_newest :
    lookup (codes "v1") (align_timestamps insertion (fl {W = Fixed} 0) unordered (pos 5))
    ≡ some (decimal 300)
unfolding align_timestamps insertion_sort group_by group_onto append_at up_to last_value
align_timestamps_newest = refl

-- The readings in disorder, in a batch of a property with some years.
abbrev batch : RawSensorBatch Fixed
batch = record {
  property_id = codes "P1";
  readings = unordered;
  window_start_ns = pos 1;
  window_end_ns = pos 5;
  expected_readings_per_sensor = pos 4;
  property_meta = record {
    chronological_age = fl 12;
    maintenance_sensitivity = decimal 6000;
    condition_quality = decimal 8500;
  };
}

abbrev processed : ConditionedData Fixed × IntegrityReport Fixed
processed = process insertion batch default_conditioning_config

process_example : IsClean default_all_configs processed.0 × IsScored 5 processed.1
process_example =
    process-IsClean Fixed-IsIeee insertion insertion-Sorts same-SortsStrings 5 batch
      default_conditioning_config default_all_configs
      (default_conditioning_config-IsSettled Fixed-IsIeee) Fixed-IsCalibrated
      (record {
        readings = (
          ((refl, refl), (refl, refl)),
          (
            ((refl, refl), (refl, refl)),
            (((refl, refl), (refl, refl)), (((refl, refl), (refl, refl)), tt)),
          ),
        );
        positive = omega arith;
        few = omega arith;
        bound = omega arith;
        expected = 4;
        expects = refl;
        few_expected = omega arith;
      })
      (record { age = (refl, refl); factor = (refl, refl) })
