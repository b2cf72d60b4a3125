-- ===== src/Sync/Machine.antt =====
-- internal/sync/statemachine.go: the StateMachine, its channels and its goroutines. Each step is a
-- section under one of the locks, a channel operation, or a return of Run. A channel is shared by
-- the list of subscribers and its reader, so channels live in a store and both hold an index.
pub mod Safe
pub mod Laws
pub mod Refinement
use twinval_go_backend.Prelude.{
  ℕ, zero, suc, ◌≡◌, Bool, true, false, Option, none, some, List, [], ◌∷◌, ◌++◌, length,
  if◌then◌else◌, ltb, ◌>>=◌,
}
use twinval_go_backend.Channel.{Channel, make_chan, try_send, close, pop, at, for_each}
use twinval_go_backend.Prelude.Int.{ℤ, pos, negsuc}
use twinval_go_backend.Float.{Float64, fl}
use twinval_go_backend.Compute.Types.{ConditionedData, TechnicalIndicators}
use twinval_go_backend.Sync.Types.{DigitalTwinState, StateUpdate, StateMachineConfig}
use twinval_go_backend.Sync.Evolution.{evolve, state_update}

-- Where the goroutine of Run is: at the select, with an update to broadcast, before the deferred
-- shutdown, or at its end.
pub data RunState (W : Type 0) : Type 0 where
  selecting : RunState W
  broadcasting : StateUpdate W → RunState W
  stopping exited : RunState W

pub record StateMachine (W : Type 0) : Type 0 where
  pub cfg : StateMachineConfig W
  pub state : DigitalTwinState W
  pub inbox : List (ConditionedData W)
  pub channels : List (Channel (StateUpdate W))
  pub subscribers : List ℕ
  pub stopped : Bool
  pub run : RunState W

-- `if n <= 0 { n = default }`.
abbrev size_or : ℕ → ℤ → ℕ
size_or default (pos zero) = default
size_or default (pos (suc n)) = suc n
size_or default (negsuc n) = default

module _ {W : Type 0} where
  abbrev pub inbox_size : StateMachineConfig W → ℕ
  inbox_size cfg = size_or 64 cfg.update_buffer_size

  abbrev pub channel_size : StateMachineConfig W → ℕ
  channel_size cfg = size_or 16 cfg.subscriber_buffer_size

  -- Update: dropped if the inbox is full.
  unfoldable pub update : StateMachine W → ConditionedData W → StateMachine W
  update m x = record m {
    inbox = if ltb (length m.inbox) (inbox_size m.cfg) then m.inbox ++ (x ∷ []) else m.inbox;
  }

  unfoldable pub current_state : StateMachine W → DigitalTwinState W
  current_state m = m.state

  -- Subscribe: the channel, closed already once the machine has stopped, has the next index.
  unfoldable pub subscribe : StateMachine W → StateMachine W
  subscribe m =
      if m.stopped
      then record m {
        channels =
            m.channels ++ (record (make_chan (channel_size m.cfg)) { is_closed = true } ∷ []);
      }
      else record m {
        channels = m.channels ++ (make_chan (channel_size m.cfg) ∷ []);
        subscribers = m.subscribers ++ (length m.channels ∷ []);
      }

  -- `none` is a panic.
  unfoldable pub broadcast : StateMachine W → StateUpdate W → Option (StateMachine W)
  unfolding for_each at try_send
  broadcast m upd = do
    chs ← for_each (λ ch. try_send ch upd) m.channels m.subscribers
    some (record m { channels = chs; run = selecting })

  unfoldable pub shutdown : StateMachine W → Option (StateMachine W)
  unfolding for_each at close
  shutdown m = do
    chs ← for_each close m.channels m.subscribers
    some (record m { channels = chs; subscribers = []; stopped = true; run = exited })

  -- The reader of a channel takes its oldest update.
  unfoldable pub receive : StateMachine W → ℕ → Option (StateMachine W)
  unfolding at pop
  receive m i = do chs ← at pop m.channels i; some (record m { channels = chs })

module _ {W : Type 0} ⦃d : Float64 W⦄ where
  abbrev pub zero_indicators : TechnicalIndicators W
  zero_indicators = record { shf = fl 0; esf = fl 0; uss = fl 0; pdp = fl 0; ci = fl 0 }

  abbrev pub initial_state : StateMachineConfig W → DigitalTwinState W
  initial_state cfg = record {
    structural_stiffness = cfg.initial_structural_stiffness;
    environmental_exposure_history = cfg.initial_environmental_exposure;
    cumulative_usage_load = cfg.initial_cumulative_usage_load;
    overall_health = fl 1;
    last_indicators = zero_indicators;
    last_updated_at = pos 0;
    update_count = 0;
  }

  unfoldable pub new : StateMachineConfig W → StateMachine W
  new cfg = record {
    cfg = record cfg {
      update_buffer_size = pos (inbox_size cfg);
      subscriber_buffer_size = pos (channel_size cfg);
    };
    state = initial_state cfg;
    inbox = [];
    channels = [];
    subscribers = [];
    stopped = false;
    run = selecting;
  }

  -- The first half of applyUpdate, on the oldest element of the inbox.
  unfoldable pub apply_update :
      StateMachine W → ConditionedData W → List (ConditionedData W) → ℤ → StateMachine W
  unfolding evolve state_update
  apply_update m x rest now =
      let snapshot = evolve m.cfg m.state x now in
      record m {
        state = snapshot;
        inbox = rest;
        run = broadcasting (state_update m.cfg snapshot x);
      }

  -- One step of the program: of a caller, of the reader of a channel, or of Run, whose context may
  -- end at any time.
  pub data Step : StateMachine W → StateMachine W → Type 0 where
    by_update : (m : StateMachine W) (x : ConditionedData W) → Step m (update m x)
    by_subscribe : (m : StateMachine W) → Step m (subscribe m)
    by_receive : (m m' : StateMachine W) (i : ℕ) → receive m i ≡ some m' → Step m m'
    by_apply :
        (m : StateMachine W) (x : ConditionedData W) (rest : List (ConditionedData W)) (now : ℤ)
        → m.run ≡ selecting
        → m.inbox ≡ x ∷ rest
        → Step m (apply_update m x rest now)
    by_broadcast :
        (m m' : StateMachine W) (upd : StateUpdate W)
        → m.run ≡ broadcasting upd
        → broadcast m upd ≡ some m'
        → Step m m'
    by_cancel : (m : StateMachine W) → m.run ≡ selecting → Step m (record m { run = stopping })
    by_shutdown : (m m' : StateMachine W) → m.run ≡ stopping → shutdown m ≡ some m' → Step m m'

  pub data Reachable (cfg : StateMachineConfig W) : StateMachine W → Type 0 where
    start : Reachable cfg (new cfg)
    next : (m m' : StateMachine W) → Reachable cfg m → Step m m' → Reachable cfg m'
