-- ===== src/Config.antt =====
-- config/config.go. The environment is a list of variables; the parsers of package strconv and
-- strings.ToLower are parameters.
pub mod Laws
use twinval_go_backend.Prelude.{
  Bool, true, false, ◌||◌, Option, none, some, List, if◌then◌else◌, [], ◌∷◌,
}
use twinval_go_backend.Prelude.Int.{ℤ, pos}
use twinval_go_backend.Prelude.Text.{Text, codes, text_eq}
use twinval_go_backend.Prelude.Maps.{lookup}
use twinval_go_backend.Float.{Float64, fl}

pub record Parsers (W : Type 0) : Type 0 where
  pub atoi : Text → Option ℤ
  pub parse_float : Text → Option W
  pub to_lower : Text → Text

pub record AppConfig (W : Type 0) : Type 0 where
  pub port : Text
  pub property_id : Text
  pub cors_origin : Text
  pub chain_limit : ℤ
  pub land_value : W
  pub structure_value : W
  pub currency : Text
  pub property_mode : Text
  pub sim_enabled : Bool
  pub sim_interval_ms : ℤ

-- The variables that are set.
abbrev pub Env : Type 0
Env = List (Text × Text)

-- os.LookupEnv, where an empty value counts as none.
unfoldable pub non_empty : Env → Text → Option Text
non_empty env key = elim (lookup key env) [
  | none ↦ none
  | some v ↦ if text_eq v [] then none else some v
]

unfoldable pub get_env : Env → Text → Text → Text
unfolding non_empty
get_env env key def = elim (non_empty env key) [ none ↦ def | some v ↦ v ]

unfoldable pub resolve_port : Env → Text
unfolding non_empty
resolve_port env = elim (non_empty env (codes "TWINVAL_PORT")) [
  | some v ↦ v
  | none ↦ elim (non_empty env (codes "PORT")) [ some v ↦ v | none ↦ codes "8080" ]
]

-- The `case` lists of getEnvBool.
abbrev one_of : Text → List Text → Bool
one_of v [] = false
one_of v (w ∷ ws) = text_eq v w || one_of v ws

module _ {W : Type 0} (lib : Parsers W) where
  unfoldable get_env_bool : Env → Text → Bool → Bool
  unfolding non_empty
  get_env_bool env key def = elim (non_empty env key) [
    | none ↦ def
    | some v ↦
        let low = lib.to_lower v in
        if one_of low (codes "1" ∷ codes "true" ∷ codes "yes" ∷ codes "on" ∷ [])
        then true
        else if one_of low (codes "0" ∷ codes "false" ∷ codes "no" ∷ codes "off" ∷ [])
        then false
        else def
  ]

  unfoldable pub get_env_int : Env → Text → ℤ → ℤ
  unfolding non_empty
  get_env_int env key def = elim (non_empty env key) [
    | none ↦ def
    | some v ↦ elim (lib.atoi v) [ none ↦ def | some n ↦ n ]
  ]

  unfoldable get_env_float : Env → Text → W → W
  unfolding non_empty
  get_env_float env key def = elim (non_empty env key) [
    | none ↦ def
    | some v ↦ elim (lib.parse_float v) [ none ↦ def | some f ↦ f ]
  ]

  unfoldable pub load_from_env : ⦃d : Float64 W⦄ → Env → AppConfig W
  unfolding resolve_port get_env get_env_int get_env_float get_env_bool
  load_from_env env = record {
    port = resolve_port env;
    property_id = get_env env (codes "TWINVAL_PROPERTY_ID") (codes "PROP-ASHRAE-001");
    cors_origin = get_env env (codes "TWINVAL_CORS_ORIGIN") (codes "*");
    chain_limit = get_env_int env (codes "TWINVAL_CHAIN_LIMIT") (pos 10);
    land_value = get_env_float env (codes "TWINVAL_LAND_VALUE") (fl 500_000);
    structure_value = get_env_float env (codes "TWINVAL_STRUCTURE_VALUE") (fl 1_000_000);
    currency = get_env env (codes "TWINVAL_CURRENCY") (codes "MYR");
    property_mode = get_env env (codes "TWINVAL_PROPERTY_MODE") (codes "single");
    sim_enabled = get_env_bool env (codes "TWINVAL_SIM_ENABLED") false;
    sim_interval_ms = get_env_int env (codes "TWINVAL_SIM_INTERVAL_MS") (pos 1000);
  }
