-- ===== src/Server/Pipeline.antt =====
-- cmd/api/main.go: processBatch. The clock, the hash library, package sort and the sends of the hub
-- are parameters. A log line is no part of the state. No other goroutine's step comes between the
-- calls of one batch.
pub mod Laws
use twinval_go_backend.Prelude.{ℕ, Bool, Option, none, some, List, [], ◌∷◌, if◌then◌else◌}
use twinval_go_backend.Prelude.Int.{ℤ}
use twinval_go_backend.Prelude.Text.{Text, text_eq}
use twinval_go_backend.Float.{Float64}
use twinval_go_backend.Compute.Types.{ConditionedData, TechnicalIndicators}
use twinval_go_backend.Compute.Configs.{AllIndicatorConfigs}
use twinval_go_backend.Compute.Indicators.{
  compute_all_indicators, compute_health_factor, compute_rtpmv,
}
use twinval_go_backend.Condition.Types.{RawSensorBatch, ConditioningConfig}
use twinval_go_backend.Condition.Groups.{Sorting}
use twinval_go_backend.Condition.Process.{process}
use twinval_go_backend.Cryptochain.Types.{ValuationToken}
use twinval_go_backend.Cryptochain.Hasher.{Library, hash_conditioned_data, hash_indicators}
use twinval_go_backend.Cryptochain.Chain.{append}
use twinval_go_backend.Cryptochain.Chain.Laws.{after}
use twinval_go_backend.Exchange.State as Exchange
use twinval_go_backend.Sync.Machine.{current_state}
use twinval_go_backend.Sync.Machine as Machine
use twinval_go_backend.Config.{AppConfig}
use twinval_go_backend.Api.Registry.{PropertyState, PropertyRegistry, get, set, update_latest}
use twinval_go_backend.Api.Hub.{Hub, WsMessage, broadcast_json}

-- What the pipeline calls of other packages.
pub record Runtime (W : Type 0) : Type 0 where
  pub sorting : Sorting W
  pub library : Library W
  pub send : ℕ → WsMessage W → Bool

-- The readings of the clock for one batch, in their order.
pub record Times : Type 0 where
  pub token : ℤ
  pub event : ℤ
  pub quote : ℤ
  pub message : ℤ

pub record Server (W : Type 0) : Type 0 where
  pub registry : PropertyRegistry W
  pub hub : Hub

module _ {W : Type 0} where
  -- Step 7: the message about a property that was just processed.
  unfoldable ws_message : PropertyState W → ℤ → WsMessage W
  unfolding current_state
  ws_message ps now = record {
    property_id = ps.property_id;
    timestamp = now;
    indicators = ps.latest.latest_indicators;
    health_factor = ps.latest.latest_hf;
    rtpmv = ps.latest.latest_rtpmv;
    currency = ps.baseline.currency;
    state = current_state ps.state_machine;
    exchange = ps.latest.latest_exchange_params;
  }

  -- The routing key.
  unfoldable pub route : AppConfig W → RawSensorBatch W → Text
  route cfg batch = if text_eq batch.property_id [] then cfg.property_id else batch.property_id

module _ {W : Type 0} ⦃d : Float64 W⦄ (rt : Runtime W) where
  -- The token that is handed to Append.
  abbrev pub token_input :
      PropertyState W → ConditionedData W → TechnicalIndicators W → W → ℤ → ValuationToken W
  token_input ps cd ind rtpmv now = record {
    token_id = 0;
    property_id = ps.property_id;
    timestamp = now;
    conditioned_data_hash = hash_conditioned_data rt.library cd;
    indicators_hash = hash_indicators rt.library ind;
    rtpmv = rtpmv;
    currency = ps.baseline.currency;
    preceding_hash = [];
    token_hash = [];
  }

  -- Steps 3 to 6 of a batch that is conditioned already.
  unfoldable pub process_property :
      PropertyState W → ConditionedData W → AllIndicatorConfigs W → Times → PropertyState W
  unfolding Machine.update append Exchange.update update_latest
  process_property ps cd ind_cfgs now =
      let indicators = compute_all_indicators cd ind_cfgs in
      let hf = compute_health_factor indicators in
      let rtpmv = compute_rtpmv ps.baseline hf in
      let token = token_input ps cd indicators rtpmv now.token in
      let exchange = (Exchange.update ps.exchange rtpmv indicators now.event now.quote).0 in
      update_latest
        (record ps {
          state_machine = Machine.update ps.state_machine cd;
          chain = after rt.library ps.chain (append rt.library ps.chain token);
          exchange = exchange;
        })
        indicators hf rtpmv exchange.params

  unfoldable pub process_batch :
      AppConfig W
      → Server W
      → RawSensorBatch W
      → ConditioningConfig W
      → AllIndicatorConfigs W
      → Times
      → Server W
  unfolding route get set process_property ws_message broadcast_json
  process_batch cfg s batch cond_cfg ind_cfgs now = elim (get s.registry (route cfg batch)) [
    | none ↦ s
    | some ps ↦
        let cd = (process rt.sorting batch cond_cfg).0 in
        let ps' = process_property ps cd ind_cfgs now in
        record {
          registry = set s.registry (route cfg batch) ps';
          hub = (broadcast_json rt.send ps'.property_id (ws_message ps' now.message) s.hub).0;
        }
  ]

  -- runPipeline, on the batches that the channel delivers.
  unfoldable pub run_pipeline :
      AppConfig W
      → ConditioningConfig W
      → AllIndicatorConfigs W
      → Server W
      → List (RawSensorBatch W × Times)
      → Server W
  unfolding process_batch
  run_pipeline cfg cond_cfg ind_cfgs s [] = s
  run_pipeline cfg cond_cfg ind_cfgs s ((batch, now) ∷ rest) =
      run_pipeline cfg cond_cfg ind_cfgs (process_batch cfg s batch cond_cfg ind_cfgs now) rest
