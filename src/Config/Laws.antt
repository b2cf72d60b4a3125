-- ===== src/Config/Laws.antt =====
-- What every environment yields.
use twinval_go_backend.Prelude.{◌≡◌, ◌≢◌, some, [], ◌∷◌, ℕ, arith, Option-cases, inl, inr}
use twinval_go_backend.Prelude.Text.{Text, codes, text_eq_iff}
use twinval_go_backend.Float.{Float64}
use twinval_go_backend.Config.{
  Parsers, AppConfig, Env, non_empty, get_env, resolve_port, load_from_env,
}

pub cons-ne-nil : {x : ℕ} {xs : Text} → x ∷ xs ≢ []
cons-ne-nil e = cc

non_empty-ne-nil : (env : Env) (key v : Text) → non_empty env key ≡ some v → v ≢ []
unfolding non_empty
non_empty-ne-nil env key v e q = ground (arith, text_eq_iff v [])

pub get_env-ne-nil : (env : Env) (key def : Text) → def ≢ [] → get_env env key def ≢ []
unfolding get_env
get_env-ne-nil env key def n q = elim (Option-cases (non_empty env key)) [
  | inl e ↦ n (rw (get_env, e) at q)
  | inr (v, e) ↦ non_empty-ne-nil env key v e (rw (get_env, e) at q)
]

resolve_port-ne-nil : (env : Env) → resolve_port env ≢ []
unfolding resolve_port
resolve_port-ne-nil env q = elim (Option-cases (non_empty env (codes "TWINVAL_PORT"))) [
  | inr (v, e) ↦ non_empty-ne-nil env (codes "TWINVAL_PORT") v e (rw (resolve_port, e) at q)
  | inl e ↦ elim (Option-cases (non_empty env (codes "PORT"))) [
    | inr (v, f) ↦ non_empty-ne-nil env (codes "PORT") v f (rw (resolve_port, e, f) at q)
    | inl f ↦ ground (arith, q)
  ]
]

-- No text of the configuration is empty.
pub record IsUsable {W : Type 0} (cfg : AppConfig W) : Type 0 where
  pub port : cfg.port ≢ []
  pub property_id : cfg.property_id ≢ []
  pub cors_origin : cfg.cors_origin ≢ []
  pub currency : cfg.currency ≢ []
  pub property_mode : cfg.property_mode ≢ []

module _ {W : Type 0} ⦃d : Float64 W⦄ (lib : Parsers W) where
  -- Whatever the environment, LoadFromEnv leaves neither the port, the property id, the CORS origin,
  -- the currency nor the property mode empty.
  pub load_from_env-IsUsable : (env : Env) → IsUsable (load_from_env lib env)
  unfolding load_from_env
  load_from_env-IsUsable env = record {
    port = resolve_port-ne-nil env;
    property_id =
        get_env-ne-nil env (codes "TWINVAL_PROPERTY_ID") (codes "PROP-ASHRAE-001") cons-ne-nil;
    cors_origin = get_env-ne-nil env (codes "TWINVAL_CORS_ORIGIN") (codes "*") cons-ne-nil;
    currency = get_env-ne-nil env (codes "TWINVAL_CURRENCY") (codes "MYR") cons-ne-nil;
    property_mode = get_env-ne-nil env (codes "TWINVAL_PROPERTY_MODE") (codes "single") cons-ne-nil;
  }
