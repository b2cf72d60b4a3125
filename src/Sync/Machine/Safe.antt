-- ===== src/Sync/Machine/Safe.antt =====
-- internal/sync/statemachine.go: the safe states of a StateMachine, and Update, Subscribe, a receive,
-- broadcast and shutdown in them.
use mathlib.Core.Path.{subst}
use mathlib.Core.Option.{some-injective}
use twinval_go_backend.Prelude.{
  ℕ, ◌≤◌, ◌≡◌, ◌≢◌, ◌⊎◌, inl, inr, refl, sym, ap, ◌∙◌, true, false, some, [], ◌∷◌, map, arith,
  length, length-append, All, All-append,
}
use twinval_go_backend.Compute.Types.{ConditionedData}
use twinval_go_backend.Sync.Types.{StateUpdate}
use twinval_go_backend.Channel.{make_chan, try_send, close, pop, at}
use twinval_go_backend.Sync.Machine.{
  selecting, broadcasting, stopping, exited, StateMachine, inbox_size, channel_size, update,
  subscribe, broadcast, shutdown, receive,
}
use twinval_go_backend.Channel.Store.{
  range, bind_inv, range-next, IsOpen, IsClosed, IsBounded, for_each-range, at-All, All-weaken,
  delivered, shut, try_send-IsOpen, close-IsOpen, pop-IsBounded, pop-is_closed,
}

module _ {W : Type 0} where
  -- Until the machine stops, its subscribers are all the channels that were handed out, and these
  -- are open; afterwards it has none, and every channel is closed.
  abbrev pub Phase : StateMachine W → Type 0
  Phase m =
      ((m.stopped ≡ false)
        × (m.subscribers ≡ range 0 (length m.channels))
        × All IsOpen m.channels
        × (m.run ≢ exited))
      ⊎ ((m.stopped ≡ true) × (m.subscribers ≡ []) × All IsClosed m.channels × (m.run ≡ exited))

  pub record IsSafe (m : StateMachine W) : Type 0 where
    pub inbox : length m.inbox ≤ inbox_size m.cfg
    pub bounded : All IsBounded m.channels
    pub phase : Phase m

  pub update-IsSafe : (m : StateMachine W) (x : ConditionedData W) → IsSafe m → IsSafe (update m x)
  unfolding update
  update-IsSafe m x v = record {
    inbox = ground (arith, v.inbox, length-append m.inbox (x ∷ []));
    bounded = v.bounded;
    phase = v.phase;
  }

  pub subscribe-IsSafe : (m : StateMachine W) → IsSafe m → IsSafe (subscribe m)
  unfolding subscribe
  subscribe-IsSafe m v = elim v.phase [
    | inl (s, q, o, r) ↦ rw s (record {
      inbox = v.inbox;
      bounded = All-append IsBounded m.channels _ v.bounded (omega arith, tt);
      phase = inl (
        refl,
        rw (q, length-append m.channels (make_chan (channel_size m.cfg) ∷ []))
            (range-next (length m.channels)),
        All-append IsOpen m.channels _ o (refl, tt),
        r,
      );
    })
    | inr (s, q, o, r) ↦ rw s (record {
      inbox = v.inbox;
      bounded = All-append IsBounded m.channels _ v.bounded (omega arith, tt);
      phase = inr (refl, q, All-append IsClosed m.channels _ o (refl, tt), r);
    })
  ]

  pub receive-IsSafe :
      (m m' : StateMachine W) (i : ℕ) → receive m i ≡ some m' → IsSafe m → IsSafe m'
  unfolding receive
  receive-IsSafe m m' i e v =
      let (chs, q, r) = bind_inv (at pop m.channels i) _ m' e in
      let (bounded, n) = at-All IsBounded pop m.channels chs i q pop-IsBounded v.bounded in
      subst IsSafe (some-injective _ _ r) (record {
        inbox = v.inbox;
        bounded = bounded;
        phase = elim v.phase [
          | inl (s, ids, o, p) ↦ inl (
            s,
            ids ∙ ap (range 0) (sym n),
            (at-All IsOpen pop m.channels chs i q (pop-is_closed false) o).0,
            p,
          )
          | inr (s, ids, o, p) ↦
              inr (s, ids, (at-All IsClosed pop m.channels chs i q (pop-is_closed true) o).0, p)
        ];
      })

  pub broadcast_lem :
      (m : StateMachine W) (upd : StateUpdate W)
      → IsSafe m
      → m.run ≡ broadcasting upd
      → broadcast m upd
        ≡ some (record m { channels = map (delivered upd) m.channels; run = selecting })
  unfolding broadcast
  broadcast_lem m upd v e = elim v.phase [
    | inl (s, q, o, r) ↦
        rw
          (
            q,
            for_each-range (λ ch. try_send ch upd) (delivered upd) [] m.channels
                (All-weaken IsOpen _ m.channels (try_send-IsOpen upd) o),
          )
          refl
    | inr (s, q, o, r) ↦ absurd (ground arith)
  ]

  pub shutdown_lem :
      (m : StateMachine W)
      → IsSafe m
      → m.run ≡ stopping
      → shutdown m
        ≡ some (record m {
          channels = map shut m.channels;
          subscribers = [];
          stopped = true;
          run = exited;
        })
  unfolding shutdown
  shutdown_lem m v e = elim v.phase [
    | inl (s, q, o, r) ↦
        rw
          (
            q,
            for_each-range close shut [] m.channels (All-weaken IsOpen _ m.channels close-IsOpen o),
          )
          refl
    | inr (s, q, o, r) ↦ absurd (ground arith)
  ]
