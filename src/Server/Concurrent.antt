-- ===== src/Server/Concurrent.antt =====
-- cmd/api/main.go: calls of processBatch for one property at the same time. With SimEnabled both
-- runPipeline and runEmbeddedSimulator call it, each from a goroutine of its own. Each method that it
-- calls on the property takes a lock of its own, so a call is a sequence of atomic steps, and the
-- steps of several calls come in any order. What a call computes between two steps is its own.
pub mod Laws
pub mod Stale
use twinval_go_backend.Prelude.{ℕ, ◌≡◌, [], if◌then◌else◌, ◌==◌}
use twinval_go_backend.Float.{Float64}
use twinval_go_backend.Compute.Types.{ConditionedData, TechnicalIndicators}
use twinval_go_backend.Compute.Configs.{AllIndicatorConfigs}
use twinval_go_backend.Compute.Indicators.{
  compute_all_indicators, compute_health_factor, compute_rtpmv,
}
use twinval_go_backend.Cryptochain.Chain.{append}
use twinval_go_backend.Cryptochain.Chain.Laws.{after}
use twinval_go_backend.Exchange.Types.{ExchangeParams}
use twinval_go_backend.Exchange.State as Exchange
use twinval_go_backend.Sync.Machine as Machine
use twinval_go_backend.Api.Registry.{PropertyState, update_latest}
use twinval_go_backend.Server.Pipeline.{Runtime, Times, token_input}

-- The local variables of a call after its steps 1 and 2.
pub record Job (W : Type 0) : Type 0 where
  pub cd : ConditionedData W
  pub indicators : TechnicalIndicators W
  pub hf : W
  pub rtpmv : W
  pub now : Times

-- Where a call stands. `quoted` has the result of Exchange.Update too.
pub data Stage (W : Type 0) : Type 0 where
  idle : Stage W
  computed : Job W → Stage W
  sent : Job W → Stage W
  appended : Job W → Stage W
  quoted : Job W → ExchangeParams W → Stage W

pub record System (W : Type 0) : Type 0 where
  pub property : PropertyState W
  pub calls : ℕ → Stage W

module _ {W : Type 0} where
  unfoldable pub at : (ℕ → Stage W) → ℕ → Stage W → ℕ → Stage W
  at calls i stage j = if j == i then stage else calls j

module _ {W : Type 0} ⦃d : Float64 W⦄ where
  unfoldable pub job : AllIndicatorConfigs W → PropertyState W → ConditionedData W → Times → Job W
  job cfgs ps cd now =
      let indicators = compute_all_indicators cd cfgs in
      let hf = compute_health_factor indicators in
      record {
        cd = cd;
        indicators = indicators;
        hf = hf;
        rtpmv = compute_rtpmv ps.baseline hf;
        now = now;
      }

  unfoldable pub send_step : PropertyState W → Job W → PropertyState W
  unfolding Machine.update
  send_step ps j = record ps { state_machine = Machine.update ps.state_machine j.cd }

  unfoldable pub append_step : Runtime W → PropertyState W → Job W → PropertyState W
  unfolding append
  append_step rt ps j =
      let token = token_input rt ps j.cd j.indicators j.rtpmv j.now.token in
      record ps { chain = after rt.library ps.chain (append rt.library ps.chain token) }

  unfoldable pub quote_step : PropertyState W → Job W → PropertyState W × ExchangeParams W
  unfolding Exchange.update
  quote_step ps j =
      let exchange = (Exchange.update ps.exchange j.rtpmv j.indicators j.now.event j.now.quote).0 in
      (record ps { exchange = exchange }, exchange.params)

  unfoldable pub cache_step : PropertyState W → Job W → ExchangeParams W → PropertyState W
  unfolding update_latest
  cache_step ps j params = update_latest ps j.indicators j.hf j.rtpmv params

module _ {W : Type 0} ⦃d : Float64 W⦄ (rt : Runtime W) (cfgs : AllIndicatorConfigs W) where
  -- One step of call `i`. The message to the hub changes nothing of the property.
  pub data Step (s : System W) : System W → Type 0 where
    by_begin :
        (i : ℕ) (cd : ConditionedData W) (now : Times)
        → s.calls i ≡ idle
        → Step s (record s { calls = at s.calls i (computed (job cfgs s.property cd now)) })
    by_send :
        (i : ℕ) (j : Job W)
        → s.calls i ≡ computed j
        → Step s (record { property = send_step s.property j; calls = at s.calls i (sent j) })
    by_append :
        (i : ℕ) (j : Job W)
        → s.calls i ≡ sent j
        → Step s
            (record { property = append_step rt s.property j; calls = at s.calls i (appended j) })
    by_quote :
        (i : ℕ) (j : Job W)
        → s.calls i ≡ appended j
        → Step s (record {
          property = (quote_step s.property j).0;
          calls = at s.calls i (quoted j (quote_step s.property j).1);
        })
    by_cache :
        (i : ℕ) (j : Job W) (params : ExchangeParams W)
        → s.calls i ≡ quoted j params
        → Step s (record { property = cache_step s.property j params; calls = at s.calls i idle })

  pub data Reachable (start : PropertyState W) : System W → Type 0 where
    here : Reachable start (record { property = start; calls = λ _. idle })
    next : {s t : System W} → Reachable start s → Step s t → Reachable start t
