-- ===== src/Sync/Machine/Refinement.antt =====
-- The concurrent machine against the sequential evolution of its state.
use mathlib.Core.Option.{some-injective}
use twinval_go_backend.Prelude.{
  ℕ, ◌≡◌, refl, sym, ap, ◌∙◌, Option, none, some, List, [], ◌∷◌, ◌++◌, ◌>>=◌, true, Bool-cases, inl,
  inr,
}
use twinval_go_backend.Prelude.Int.{ℤ}
use twinval_go_backend.Float.{Float64}
use twinval_go_backend.Compute.Types.{ConditionedData}
use twinval_go_backend.Sync.Types.{StateUpdate, StateMachineConfig, DigitalTwinState}
use twinval_go_backend.Sync.Evolution.{evolve}
use twinval_go_backend.Sync.Evolution.History.{evolve_all}
use twinval_go_backend.Channel.{at, pop, for_each, try_send, close}
use twinval_go_backend.Sync.Machine.{
  StateMachine, new, selecting, exited, update, subscribe, broadcast, shutdown, receive,
  apply_update, initial_state, Step, by_update, by_subscribe, by_receive, by_apply, by_broadcast,
  by_cancel, by_shutdown, Reachable, start, next,
}

module _ {W : Type 0} ⦃d : Float64 W⦄ where
  evolve_all-append :
      (cfg : StateMachineConfig W) (s : DigitalTwinState W) (xs ys : List (ConditionedData W × ℤ))
      → evolve_all cfg s (xs ++ ys) ≡ evolve_all cfg (evolve_all cfg s xs) ys
  unfolding evolve_all
  evolve_all-append cfg s [] ys = refl
  evolve_all-append cfg s ((x, now) ∷ xs) ys = evolve_all-append cfg (evolve cfg s x now) xs ys

  -- The reading that a step processes, with the time at which it does.
  abbrev pub processed : {m m' : StateMachine W} → Step m m' → List (ConditionedData W × ℤ)
  processed (by_update m x) = []
  processed (by_subscribe m) = []
  processed (by_receive m m' i e) = []
  processed (by_apply m x rest now e f) = (x, now) ∷ []
  processed (by_broadcast m m' upd e f) = []
  processed (by_cancel m e) = []
  processed (by_shutdown m m' e f) = []

  -- All of them, in their order.
  abbrev pub all_processed :
      {cfg : StateMachineConfig W} {m : StateMachine W}
      → Reachable cfg m
      → List (ConditionedData W × ℤ)
  all_processed start = []
  all_processed (next m m' r s) = all_processed r ++ processed s

  -- The step keeps the configuration, and its reading is all that moves the state.
  Follows : (m m' : StateMachine W) → List (ConditionedData W × ℤ) → Type 0
  Follows m m' xs = (m'.cfg ≡ m.cfg) × (m'.state ≡ evolve_all m.cfg m.state xs)

  subscribe-Follows : (m : StateMachine W) → Follows m (subscribe m) []
  unfolding Follows evolve_all subscribe
  subscribe-Follows m = elim (Bool-cases m.stopped) [
    | inl e ↦ rw e (refl, refl)
    | inr e ↦ rw e (refl, refl)
  ]

  -- A step that changes other fields only, where it does not panic.
  keeps-Follows :
      {B : Type 0} (o : Option B) (k : B → StateMachine W) (m m' : StateMachine W)
      → ((b : B) → (k b).cfg ≡ m.cfg)
      → ((b : B) → (k b).state ≡ m.state)
      → (o >>= λ b. some (k b)) ≡ some m'
      → Follows m m' []
  unfolding Follows evolve_all
  keeps-Follows none k m m' p q e = cc
  keeps-Follows (some b) k m m' p q e =
      let s : k b ≡ m' = some-injective _ _ e in (rw s at (p b), rw s at (q b))

  receive-Follows : (m m' : StateMachine W) (i : ℕ) → receive m i ≡ some m' → Follows m m' []
  unfolding receive
  receive-Follows m m' i e =
      keeps-Follows (at pop m.channels i) (λ chs. record m { channels = chs }) m m' (λ _. refl)
        (λ _. refl) e

  broadcast-Follows :
      (m m' : StateMachine W) (upd : StateUpdate W) → broadcast m upd ≡ some m' → Follows m m' []
  unfolding broadcast
  broadcast-Follows m m' upd e =
      keeps-Follows (for_each (λ ch. try_send ch upd) m.channels m.subscribers)
        (λ chs. record m { channels = chs; run = selecting }) m m' (λ _. refl) (λ _. refl) e

  shutdown-Follows : (m m' : StateMachine W) → shutdown m ≡ some m' → Follows m m' []
  unfolding shutdown
  shutdown-Follows m m' e =
      keeps-Follows (for_each close m.channels m.subscribers)
        (λ chs. record m { channels = chs; subscribers = []; stopped = true; run = exited }) m m'
        (λ _. refl) (λ _. refl) e

  Step-Follows : {m m' : StateMachine W} (s : Step m m') → Follows m m' (processed s)
  unfolding Follows evolve_all update apply_update
  Step-Follows (by_update m x) = (refl, refl)
  Step-Follows (by_subscribe m) = subscribe-Follows m
  Step-Follows (by_receive m m' i e) = receive-Follows m m' i e
  Step-Follows (by_apply m x rest now e f) = (refl, refl)
  Step-Follows (by_broadcast m m' upd e f) = broadcast-Follows m m' upd f
  Step-Follows (by_cancel m e) = (refl, refl)
  Step-Follows (by_shutdown m m' e f) = shutdown-Follows m m' f

  -- In every reachable state, whatever the interleaving, the digital twin is the sequential
  -- evolution of the initial state over the readings that were processed, in their order, under the
  -- configuration that New sets.
  pub Reachable-evolve_all :
      (cfg : StateMachineConfig W) (m : StateMachine W) (r : Reachable cfg m)
      → (m.cfg ≡ (new cfg).cfg)
        × (m.state ≡ evolve_all (new cfg).cfg (initial_state cfg) (all_processed r))
  unfolding new evolve_all Follows
  Reachable-evolve_all cfg _ start = (refl, refl)
  Reachable-evolve_all cfg _ (next m m' r s) =
      let (p, q) = Reachable-evolve_all cfg m r in
      let (same, moved) = Step-Follows s in
      (
        same ∙ p,
        moved
            ∙ ap (λ c. evolve_all c m.state (processed s)) p
            ∙ ap (λ t. evolve_all (new cfg).cfg t (processed s)) q
            ∙ sym (
                evolve_all-append (new cfg).cfg (initial_state cfg) (all_processed r)
                  (processed s)),
      )
