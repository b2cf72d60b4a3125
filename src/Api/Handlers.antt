-- ===== src/Api/Handlers.antt =====
-- api/handlers.go: the REST handlers. A response is what a handler hands to net/http: the headers
-- that it sets, the status, and the value that encoding/json is given or the text of http.Error.
-- strconv.Atoi is a parameter.
pub mod Laws
use twinval_go_backend.Prelude.{
  ℕ, zero, suc, ◌+◌, ◌-◌, Bool, true, false, ◌&&◌, Option, none, some, List, [], ◌∷◌, length, map,
  if◌then◌else◌, ◌>>=◌,
}
use twinval_go_backend.Prelude.Int.{ℤ, pos, negsuc, ◌-ℤ◌, int64, ltb_ℤ}
use twinval_go_backend.Prelude.Text.{Text, codes, text_eq}
use twinval_go_backend.Prelude.Maps.{insert}
use twinval_go_backend.Float.{Float64, ◌⊕◌}
use twinval_go_backend.Compute.Types.{TechnicalIndicators}
use twinval_go_backend.Cryptochain.Types.{ValuationToken, AuditRecord}
use twinval_go_backend.Cryptochain.Chain.{CryptoChain, get_token, to_audit_mode}
use twinval_go_backend.Cryptochain.Chain as Chain
use twinval_go_backend.Exchange.Types.{ExchangeParams}
use twinval_go_backend.Sync.Types.{DigitalTwinState}
use twinval_go_backend.Sync.Machine.{current_state}
use twinval_go_backend.Api.Registry.{
  PropertyState, PropertyRegistry, Latest, get, snapshot, snapshot_all,
}

pub record Handlers (W : Type 0) : Type 0 where
  pub registry : PropertyRegistry W
  pub cors_origin : Text
  pub default_chain_limit : ℤ
  pub version : Text

abbrev pub Headers : Type 0
Headers = List (Text × Text)

-- `body` is a value, or the text of http.Error, or empty.
pub data Body (A : Type 0) : Type 0 where
  json : A → Body A
  error : Text → Body A
  empty : Body A

pub record Response (A : Type 0) : Type 0 where
  pub headers : Headers
  pub status : ℕ
  pub body : Body A

abbrev pub allow_origin : Text
allow_origin = codes "Access-Control-Allow-Origin"

pub record HealthResponse : Type 0 where
  pub status : Text
  pub version : Text

pub record ValuationResponse (W : Type 0) : Type 0 where
  pub property_id : Text
  pub indicators : TechnicalIndicators W
  pub health_factor : W
  pub rtpmv : W
  pub currency : Text
  pub exchange : ExchangeParams W
  pub state : DigitalTwinState W

pub record ChainResponse (W : Type 0) : Type 0 where
  pub property_id : Text
  pub total : ℕ
  pub returned : ℕ
  pub tokens : List (ValuationToken W)

pub record PropertySummary (W : Type 0) : Type 0 where
  pub property_id : Text
  pub name : Text
  pub primary_use : Text
  pub land_value : W
  pub structure_value : W
  pub govt_valuation : W
  pub currency : Text
  pub chain_length : ℕ
  pub latest_rtpmv : W

pub record PropertiesResponse (W : Type 0) : Type 0 where
  pub total : ℕ
  pub properties : List (PropertySummary W)

pub record AuditResponse (W : Type 0) : Type 0 where
  pub property_id : Text
  pub audit : List (AuditRecord W)

abbrev pub json_type : Headers → Headers
json_type hs = insert (codes "Content-Type") (codes "application/json") hs

abbrev pub not_found : {A : Type 0} → Headers → Response A
not_found hs = record { headers = hs; status = 404; body = error (codes "property not found") }

abbrev pub ok_json : {A : Type 0} → Headers → A → Response A
ok_json hs a = record { headers = json_type hs; status = 200; body = json a }

-- `?limit=N`: "" for no such parameter. Only a positive N counts.
unfoldable pub limit_or : (Text → Option ℤ) → ℤ → Text → ℤ
limit_or atoi default l =
    if text_eq l []
    then default
    else elim (atoi l) [ none ↦ default | some n ↦ if ltb_ℤ (pos 0) n then n else default ]

-- `start`, of Go's `int`, held at 0.
unfoldable pub window_start : ℕ → ℤ → ℕ
unfolding ◌-ℤ◌ int64
window_start total limit = elim (int64 (pos total -ℤ limit)) [ pos n ↦ n | negsuc n ↦ 0 ]

module _ {W : Type 0} where
  unfoldable pub set_cors : Handlers W → Headers → Headers
  set_cors h hs = insert (codes "Access-Control-Allow-Headers") (codes "Content-Type") (
      insert (codes "Access-Control-Allow-Methods") (codes "GET, POST, OPTIONS")
        (insert allow_origin h.cors_origin hs))

  unfoldable pub health : Handlers W → Headers → Response HealthResponse
  unfolding set_cors
  health h hs = ok_json (set_cors h hs) (record {
    status = codes "ok";
    version = if text_eq h.version [] then codes "1.0.0" else h.version;
  })

  unfoldable pub valuation : Handlers W → Headers → Text → Response (ValuationResponse W)
  unfolding set_cors get snapshot current_state
  valuation h hs id = elim (get h.registry id) [
    | none ↦ not_found (set_cors h hs)
    | some ps ↦ ok_json (set_cors h hs) (record {
      property_id = ps.property_id;
      indicators = (snapshot ps).latest_indicators;
      health_factor = (snapshot ps).latest_hf;
      rtpmv = (snapshot ps).latest_rtpmv;
      currency = ps.baseline.currency;
      exchange = (snapshot ps).latest_exchange_params;
      state = current_state ps.state_machine;
    })
  ]

  -- The loop from `i` on, for `n` rounds.
  unfoldable pub collect : CryptoChain W → ℕ → ℕ → List (ValuationToken W)
  unfolding get_token
  collect c i zero = []
  collect c i (suc n) =
      let rest = collect c (suc i) n in
      elim (get_token c (pos i)) [ none ↦ rest | some t ↦ t ∷ rest ]

  -- `none` is the panic of `make` on a negative capacity.
  unfoldable pub chain_window : CryptoChain W → ℤ → Option (List (ValuationToken W))
  unfolding Chain.len window_start collect
  chain_window c limit =
      let total = Chain.len c in
      let start = window_start total limit in
      if ltb_ℤ (pos total -ℤ pos start) (pos 0)
      then none
      else some (collect c start (total - start))

  unfoldable pub chain :
      (Text → Option ℤ) → Handlers W → Headers → Text → Text → Option (Response (ChainResponse W))
  unfolding set_cors get limit_or chain_window Chain.len
  chain atoi h hs id query = elim (get h.registry id) [
    | none ↦ some (not_found (set_cors h hs))
    | some ps ↦ do
      tokens ← chain_window ps.chain (limit_or atoi h.default_chain_limit query)
      some (
          ok_json (set_cors h hs) (record {
            property_id = ps.property_id;
            total = Chain.len ps.chain;
            returned = length tokens;
            tokens = tokens;
          }))
  ]

  unfoldable pub audit : Handlers W → Headers → Text → Response (AuditResponse W)
  unfolding set_cors get to_audit_mode
  audit h hs id = elim (get h.registry id) [
    | none ↦ not_found (set_cors h hs)
    | some ps ↦
        ok_json (set_cors h hs)
          (record { property_id = ps.property_id; audit = to_audit_mode ps.chain })
  ]

  unfoldable cors_preflight : {A : Type 0} → Handlers W → Headers → Response A
  unfolding set_cors
  cors_preflight h hs = record { headers = set_cors h hs; status = 204; body = empty }

module _ {W : Type 0} ⦃d : Float64 W⦄ where
  unfoldable pub summary : PropertyState W → PropertySummary W
  unfolding Chain.len snapshot
  summary ps = record {
    property_id = ps.property_id;
    name = ps.name;
    primary_use = ps.primary_use;
    land_value = ps.baseline.land_value;
    structure_value = ps.baseline.structure_value;
    govt_valuation = ps.baseline.land_value ⊕ ps.baseline.structure_value;
    currency = ps.baseline.currency;
    chain_length = Chain.len ps.chain;
    latest_rtpmv = (snapshot ps).latest_rtpmv;
  }

  -- The loop. `none` is a nil pointer.
  unfoldable pub summaries : List (Option (PropertyState W)) → Option (List (PropertySummary W))
  unfolding summary
  summaries [] = some []
  summaries (p ∷ all) = do ps ← p; rest ← summaries all; some (summary ps ∷ rest)

  unfoldable pub properties :
      (List Text → List Text) → Handlers W → Headers → Option (Response (PropertiesResponse W))
  unfolding set_cors snapshot_all summaries
  properties sort_strings h hs = do
    out ← summaries (snapshot_all sort_strings h.registry)
    some (ok_json (set_cors h hs) (record { total = length out; properties = out }))
