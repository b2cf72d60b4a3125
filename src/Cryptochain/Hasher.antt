-- ===== src/Cryptochain/Hasher.antt =====
-- internal/cryptochain/hasher.go. Package fmt's number formats and SHA-256 are parameters.
pub mod Injective
use twinval_go_backend.Prelude.{ℕ, List, [], ◌∷◌, ◌++◌}
use twinval_go_backend.Prelude.Int.{ℤ}
use twinval_go_backend.Prelude.Text.{Text}
use twinval_go_backend.Compute.Types.{ConditionedData, TechnicalIndicators}
use twinval_go_backend.Cryptochain.Types.{ValuationToken}

-- `fmt.Sprintf` with "%.10f", and with "%d" on a uint64 and on an int64; SHA-256, and hex.
pub record Library (W : Type 0) : Type 0 where
  pub format_float : W → Text
  pub format_uint : ℕ → Text
  pub format_int : ℤ → Text
  pub sum256 : Text → Text
  pub encode_to_string : Text → Text

-- '|'.
abbrev pub field_sep : ℕ
field_sep = 124

-- strings.Join with that separator.
unfoldable pub join : List Text → Text
join [] = []
join (s ∷ []) = s
join (s ∷ t ∷ ts) = s ++ (field_sep ∷ join (t ∷ ts))

module _ {W : Type 0} (lib : Library W) where
  unfoldable pub marshal_conditioned_data_for_hash : ConditionedData W → Text
  unfolding join
  marshal_conditioned_data_for_hash x = join (
      lib.format_float x.vibration_magnitude
      ∷ lib.format_float x.strain_magnitude
      ∷ lib.format_float x.temperature
      ∷ lib.format_float x.humidity
      ∷ lib.format_float x.air_quality_pm
      ∷ lib.format_float x.occupancy_ratio
      ∷ lib.format_float x.electrical_load
      ∷ lib.format_float x.water_consumption
      ∷ lib.format_float x.uptime_continuity
      ∷ lib.format_float x.cross_sensor_consistency
      ∷ lib.format_float x.calibration_recency
      ∷ lib.format_float x.tamper_score
      ∷ lib.format_float x.chronological_age
      ∷ lib.format_float x.maintenance_sensitivity
      ∷ lib.format_float x.condition_quality
      ∷ [])

  unfoldable pub marshal_indicators_for_hash : TechnicalIndicators W → Text
  unfolding join
  marshal_indicators_for_hash i = join (
      lib.format_float i.shf
      ∷ lib.format_float i.esf
      ∷ lib.format_float i.uss
      ∷ lib.format_float i.pdp
      ∷ lib.format_float i.ci
      ∷ [])

  -- The fields that are hashed, in declaration order.
  abbrev pub token_fields : ValuationToken W → List Text
  token_fields t =
      lib.format_uint t.token_id
      ∷ t.property_id
      ∷ lib.format_int t.timestamp
      ∷ t.conditioned_data_hash
      ∷ t.indicators_hash
      ∷ lib.format_float t.rtpmv
      ∷ t.currency
      ∷ t.preceding_hash
      ∷ []

  unfoldable pub marshal_token_for_hash : ValuationToken W → Text
  marshal_token_for_hash t = join (token_fields t)

  unfoldable pub sha256_hex : Text → Text
  sha256_hex s = lib.encode_to_string (lib.sum256 s)

  unfoldable pub hash_conditioned_data : ConditionedData W → Text
  hash_conditioned_data x = sha256_hex (marshal_conditioned_data_for_hash x)

  unfoldable pub hash_indicators : TechnicalIndicators W → Text
  hash_indicators i = sha256_hex (marshal_indicators_for_hash i)

  unfoldable pub hash_token : ValuationToken W → Text
  hash_token t = sha256_hex (marshal_token_for_hash t)
