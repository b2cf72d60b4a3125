-- ===== src/Server/Tests.antt =====
-- The theorems on config and on the pipeline of cmd/api at concrete inputs, over whole ten-thousandths.
use twinval_go_backend.Prelude.{
  ◌≡◌, ◌≢◌, ◌⊎◌, inl, refl, true, none, some, [], ◌∷◌, ◌++◌, ◌==◌, replicate,
}
use twinval_go_backend.Prelude.Int.{pos}
use twinval_go_backend.Prelude.Text.{Text, codes}
use twinval_go_backend.Float.{fl, decimal}
use twinval_go_backend.Float.Fixed.{Fixed, fixed_float}
use twinval_go_backend.Float.Fixed.Laws.{Fixed-IsIeee}
use twinval_go_backend.Compute.Tests.{default_configs}
use twinval_go_backend.Compute.Value.{IsAssessed}
use twinval_go_backend.Condition.Types.{
  RawSensorBatch, ConditioningConfig, default_conditioning_config, sensor_vibration,
}
use twinval_go_backend.Condition.Sorted.{insertion}
use twinval_go_backend.Cryptochain.Types.{ValuationToken}
use twinval_go_backend.Cryptochain.Verify.{verify}
use twinval_go_backend.Cryptochain.Chain as Chain
use twinval_go_backend.Exchange.State as Exchange
use twinval_go_backend.Config.{AppConfig, Env, Parsers, load_from_env}
use twinval_go_backend.Config.Laws.{IsUsable, load_from_env-IsUsable}
use twinval_go_backend.Api.Registry.{PropertyState, PropertyRegistry, get, set}
use twinval_go_backend.Api.Registry.Laws.{set-Registered, none-Registered}
use twinval_go_backend.Server.Bootstrap.{configured_property, exchange_config, bootstrap_all}
use twinval_go_backend.Server.Pipeline.{Runtime, Times, Server, route, process_batch, run_pipeline}
use twinval_go_backend.Server.Pipeline.Laws.{IsCurrent, IsSound, AllSound, process_batch-IsCurrent}
use twinval_go_backend.Server.Served.{served_chains_verify}

abbrev pub parsers : Parsers Fixed
parsers = record { atoi = λ s. none; parse_float = λ s. none; to_lower = λ s. s }

abbrev pub env : Env
env = (codes "PORT", codes "7777") ∷ (codes "TWINVAL_CURRENCY", []) ∷ []

load_from_env_example : IsUsable (load_from_env parsers env)
load_from_env_example = load_from_env-IsUsable parsers env

abbrev pub config : AppConfig Fixed
config = load_from_env parsers env

abbrev pub runtime : Runtime Fixed
runtime = record {
  sorting = insertion;
  library = record {
    format_float = λ x. [];
    format_uint = λ n. replicate n b'1';
    format_int = λ z. [];
    sum256 = λ s. s;
    encode_to_string = λ s. s;
  };
  send = λ c m. c == 1;
}

abbrev pub property : PropertyState Fixed
property = configured_property config (Exchange.seeded (exchange_config config.property_id))

abbrev registry : PropertyRegistry Fixed
registry = set [] (codes "P1") property

abbrev server : Server Fixed
server = record { registry = registry; hub = (codes "P1", 1 ∷ 2 ∷ []) ∷ [] }

pub property-IsSound : IsSound runtime.library property
unfolding Chain.new_chain
property-IsSound = record {
  named = (load_from_env-IsUsable parsers env).property_id;
  linked = tt;
  current = inl refl;
}

registry-AllSound : AllSound runtime registry
registry-AllSound =
    set-Registered (IsSound runtime.library) [] (codes "P1") property property-IsSound
      (none-Registered (IsSound runtime.library))

abbrev batch : RawSensorBatch Fixed
batch = record {
  property_id = codes "P1";
  readings =
      record {
        sensor_id = codes "vib1";
        sensor_type = sensor_vibration;
        zone = codes "core";
        timestamp_ns = pos 5;
        value = decimal 300;
        calibration_days_ago = fl 30;
      }
      ∷ [];
  window_start_ns = pos 1;
  window_end_ns = pos 9;
  expected_readings_per_sensor = pos 1;
  property_meta = record {
    chronological_age = fl 3;
    maintenance_sensitivity = fl 0;
    condition_quality = fl 1;
  };
}

abbrev pub now : Times
now = record { token = pos 10; event = pos 11; quote = pos 12; message = pos 13 }

abbrev conditioning : ConditioningConfig Fixed
conditioning = default_conditioning_config

process_batch_example :
    let s' = process_batch runtime config server batch conditioning default_configs now in
    ((get server.registry (route config batch) ≡ none) × (s' ≡ server))
    ⊎ ((ps : PropertyState Fixed) × (ps' : PropertyState Fixed) × (get server.registry
            (route config batch)
          ≡ some ps)
        × (get s'.registry (route config batch) ≡ some ps')
        × ((id : Text) → id ≢ route config batch → get s'.registry id ≡ get server.registry id)
        × (ps'.property_id ≡ ps.property_id)
        × (ps'.baseline ≡ ps.baseline)
        × ((t : ValuationToken Fixed) × (ps'.chain.tokens ≡ ps.chain.tokens ++ (t ∷ [])))
        × IsCurrent ps')
process_batch_example =
    process_batch-IsCurrent runtime config conditioning default_configs server batch now
      registry-AllSound

-- Without a PropertyID, the batch goes to the configured property.
abbrev unnamed : RawSensorBatch Fixed
unnamed = record batch { property_id = [] }

served_chains_example :
    (r : PropertyRegistry Fixed) × (bootstrap_all config [] ≡ some r)
    × ((id : Text) (ps : PropertyState Fixed)
        → get
            (run_pipeline runtime config conditioning default_configs
              (record { registry = r; hub = [] })
              ((unnamed, now) ∷ [])).registry
            id
          ≡ some ps
        → ((verify runtime.library ps.chain).chain_valid ≡ true)
          × ((ps.chain.tokens ≡ []) ⊎ IsCurrent ps))
served_chains_example =
    served_chains_verify Fixed-IsIeee runtime parsers env conditioning default_configs
      ((unnamed, now) ∷ [])

property-IsAssessed : IsAssessed property.baseline
unfolding load_from_env
property-IsAssessed = record {
  land = (refl, refl);
  structure = (refl, refl);
  structure_nonneg = refl;
}
