-- ===== src/Sync/Machine/Laws.antt =====
-- What holds in every state that the goroutines around a StateMachine can reach.
use mathlib.Core.Path.{subst}
use mathlib.Core.Option.{some-injective}
use twinval_go_backend.Sync.Machine.Safe.{
  IsSafe, update-IsSafe, subscribe-IsSafe, receive-IsSafe, broadcast_lem, shutdown_lem,
}
use twinval_go_backend.Prelude.{
  ◌≡◌, inl, inr, refl, sym, ap, ◌∙◌, true, some, List, [], ◌∷◌, map, arith, length, length-map,
}
use twinval_go_backend.Prelude.Int.{ℤ}
use twinval_go_backend.Float.{Float64}
use twinval_go_backend.Compute.Types.{ConditionedData}
use twinval_go_backend.Sync.Types.{StateUpdate, StateMachineConfig}
use twinval_go_backend.Sync.Machine.{
  selecting, broadcasting, stopping, exited, StateMachine, broadcast, shutdown, new, apply_update,
  Step, by_update, by_subscribe, by_receive, by_apply, by_broadcast, by_cancel, by_shutdown,
  Reachable, start, next,
}
use twinval_go_backend.Channel.Store.{
  range, IsOpen, IsClosed, IsBounded, All-map, delivered, shut, delivered-IsBounded,
  delivered-IsOpen,
}

module _ {W : Type 0} where
  broadcast-IsSafe :
      (m m' : StateMachine W) (upd : StateUpdate W)
      → m.run ≡ broadcasting upd
      → broadcast m upd ≡ some m'
      → IsSafe m
      → IsSafe m'
  broadcast-IsSafe m m' upd e f v =
      subst IsSafe (some-injective _ _ (sym (broadcast_lem m upd v e) ∙ f)) (record {
        inbox = v.inbox;
        bounded =
            All-map IsBounded IsBounded (delivered upd) m.channels (delivered-IsBounded upd)
              v.bounded;
        phase = elim v.phase [
          | inl (s, ids, o, p) ↦ inl (
            s,
            ids ∙ ap (range 0) (sym (length-map (delivered upd) m.channels)),
            All-map IsOpen IsOpen (delivered upd) m.channels (delivered-IsOpen upd) o,
            λ q. cc,
          )
          | inr (s, ids, o, p) ↦ absurd (ground arith)
        ];
      })

  shutdown-IsSafe :
      (m m' : StateMachine W) → m.run ≡ stopping → shutdown m ≡ some m' → IsSafe m → IsSafe m'
  shutdown-IsSafe m m' e f v =
      subst IsSafe (some-injective _ _ (sym (shutdown_lem m v e) ∙ f)) (record {
        inbox = v.inbox;
        bounded = All-map IsBounded IsBounded shut m.channels (λ c h. h) v.bounded;
        phase =
            inr (
              refl,
              refl,
              All-map IsBounded IsClosed shut m.channels (λ c h. refl) v.bounded,
              refl,
            );
      })

  cancel-IsSafe :
      (m : StateMachine W) → m.run ≡ selecting → IsSafe m → IsSafe (record m { run = stopping })
  cancel-IsSafe m e v = record {
    inbox = v.inbox;
    bounded = v.bounded;
    phase = elim v.phase [
      | inl (s, ids, o, p) ↦ inl (s, ids, o, λ q. cc)
      | inr (s, ids, o, p) ↦ absurd (ground arith)
    ];
  }

  apply_update-IsSafe :
      ⦃d : Float64 W⦄ (m : StateMachine W) (x : ConditionedData W) (rest : List (ConditionedData W))
      (now : ℤ)
      → m.run ≡ selecting
      → m.inbox ≡ x ∷ rest
      → IsSafe m
      → IsSafe (apply_update m x rest now)
  unfolding apply_update
  apply_update-IsSafe m x rest now e f v = record {
    inbox = omega (arith, v.inbox, ap length f);
    bounded = v.bounded;
    phase = elim v.phase [
      | inl (s, ids, o, p) ↦ inl (s, ids, o, λ q. cc)
      | inr (s, ids, o, p) ↦ absurd (ground arith)
    ];
  }

  -- A step keeps the safe states.
  Step-IsSafe : ⦃d : Float64 W⦄ {m m' : StateMachine W} → Step m m' → IsSafe m → IsSafe m'
  Step-IsSafe (by_update m x) v = update-IsSafe m x v
  Step-IsSafe (by_subscribe m) v = subscribe-IsSafe m v
  Step-IsSafe (by_receive m m' i e) v = receive-IsSafe m m' i e v
  Step-IsSafe (by_apply m x rest now e f) v = apply_update-IsSafe m x rest now e f v
  Step-IsSafe (by_broadcast m m' upd e f) v = broadcast-IsSafe m m' upd e f v
  Step-IsSafe (by_cancel m e) v = cancel-IsSafe m e v
  Step-IsSafe (by_shutdown m m' e f) v = shutdown-IsSafe m m' e f v

module _ {W : Type 0} ⦃d : Float64 W⦄ (cfg : StateMachineConfig W) where
  -- In every reachable state, whatever the interleaving of the callers of Update, Subscribe and the
  -- channels with Run and the end of its context: the inbox and every subscriber's buffer hold no
  -- more than their sizes. Until Run has returned the subscribers are all the channels that were
  -- handed out, each once, and all are open. Afterwards there is no subscriber, and every channel,
  -- also of a later Subscribe, is closed.
  pub Reachable-IsSafe : (m : StateMachine W) → Reachable cfg m → IsSafe m
  unfolding new
  Reachable-IsSafe _ start = record {
    inbox = omega arith;
    bounded = tt;
    phase = inl (refl, refl, tt, λ q. cc);
  }
  Reachable-IsSafe _ (next m m' r s) = Step-IsSafe s (Reachable-IsSafe m r)

  -- Broadcast never sends on a closed channel: in a reachable state with an update to broadcast it
  -- does not panic, and each channel handed out so far gets the update at its end, if it has room,
  -- and stays as it is otherwise, whatever the other channels do.
  pub broadcast_delivers :
      (m : StateMachine W) (upd : StateUpdate W)
      → Reachable cfg m
      → m.run ≡ broadcasting upd
      → broadcast m upd
        ≡ some (record m { channels = map (delivered upd) m.channels; run = selecting })
  broadcast_delivers m upd r e = broadcast_lem m upd (Reachable-IsSafe m r) e

  -- Shutdown never closes a channel twice: in a reachable state with the context ended it does not
  -- panic, and closes every channel, whose pending updates stay readable.
  shutdown_closes :
      (m : StateMachine W)
      → Reachable cfg m
      → m.run ≡ stopping
      → shutdown m
        ≡ some (record m {
          channels = map shut m.channels;
          subscribers = [];
          stopped = true;
          run = exited;
        })
  shutdown_closes m r e = shutdown_lem m (Reachable-IsSafe m r) e
