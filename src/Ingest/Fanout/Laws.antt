-- ===== src/Ingest/Fanout/Laws.antt =====
-- What the methods on the subscribers keep, and that none of them panics.
use mathlib.Core.Path.{subst}
use mathlib.Core.Option.{some-injective}
use twinval_go_backend.Prelude.{
  ℕ, ◌≡◌, ◌⊎◌, inl, inr, refl, sym, ap, ◌∙◌, Bool, true, false, some, [], ◌∷◌, map, arith,
  if◌then◌else◌, length, length-append, length-map, All, All-append,
}
use twinval_go_backend.Channel.{make_chan, try_send, close, pop, at, for_each}
use twinval_go_backend.Ingest.Fanout.{Fanout, subscribe, broadcast, close_subscribers, receive}
use twinval_go_backend.Channel.Store.{
  range, bind_inv, range-next, IsOpen, IsClosed, IsBounded, for_each-range, at-All, All-map,
  All-weaken, delivered, shut, try_send-IsOpen, close-IsOpen, delivered-IsBounded, delivered-IsOpen,
  pop-IsBounded, pop-is_closed,
}

module _ {A : Type 0} where
  -- Until the receiver stops, its subscribers are all the channels that were handed out, and these
  -- are open; afterwards it has none, and every channel is closed.
  abbrev pub Phase : Fanout A → Type 0
  Phase f =
      ((f.stopped ≡ false) × (f.subscribers ≡ range 0 (length f.channels)) × All IsOpen f.channels)
      ⊎ ((f.stopped ≡ true) × (f.subscribers ≡ []) × All IsClosed f.channels)

  pub record IsSafe (f : Fanout A) : Type 0 where
    pub bounded : All IsBounded f.channels
    pub phase : Phase f

  -- The state after a broadcast: each channel gets the batch, if it has room.
  abbrev pub sent : A → Fanout A → Fanout A
  sent x f = if f.stopped then f else record f { channels = map (delivered x) f.channels }

  -- The state of the end, with the test apart.
  abbrev ended_if : Bool → Fanout A → Fanout A
  ended_if b f =
      if b then f else record f { channels = map shut f.channels; subscribers = []; stopped = true }

  -- The state after the end: each channel is closed, and its pending batches stay readable.
  abbrev pub ended : Fanout A → Fanout A
  ended f = ended_if f.stopped f

  pub subscribe-IsSafe : (f : Fanout A) → IsSafe f → IsSafe (subscribe f)
  unfolding subscribe
  subscribe-IsSafe f v = elim v.phase [
    | inl (s, q, o) ↦ rw s (record {
      bounded = All-append IsBounded f.channels _ v.bounded (omega arith, tt);
      phase = inl (
        refl,
        rw (q, length-append f.channels (make_chan f.buffer_size ∷ []))
            (range-next (length f.channels)),
        All-append IsOpen f.channels _ o (refl, tt),
      );
    })
    | inr (s, q, o) ↦ rw s (record {
      bounded = All-append IsBounded f.channels _ v.bounded (omega arith, tt);
      phase = inr (refl, q, All-append IsClosed f.channels _ o (refl, tt));
    })
  ]

  pub receive-IsSafe : (f f' : Fanout A) (i : ℕ) → receive f i ≡ some f' → IsSafe f → IsSafe f'
  unfolding receive
  receive-IsSafe f f' i e v =
      let (chs, q, r) = bind_inv (at pop f.channels i) _ f' e in
      let (bounded, n) = at-All IsBounded pop f.channels chs i q pop-IsBounded v.bounded in
      subst IsSafe (some-injective _ _ r) (record {
        bounded = bounded;
        phase = elim v.phase [
          | inl (s, ids, o) ↦ inl (
            s,
            ids ∙ ap (range 0) (sym n),
            (at-All IsOpen pop f.channels chs i q (pop-is_closed false) o).0,
          )
          | inr (s, ids, o) ↦
              inr (s, ids, (at-All IsClosed pop f.channels chs i q (pop-is_closed true) o).0)
        ];
      })

  pub broadcast_lem : (f : Fanout A) (x : A) → IsSafe f → broadcast f x ≡ some (sent x f)
  unfolding broadcast for_each
  broadcast_lem f x v = elim v.phase [
    | inl (s, q, o) ↦
        rw
          (
            s,
            q,
            for_each-range (λ ch. try_send ch x) (delivered x) [] f.channels
                (All-weaken IsOpen _ f.channels (try_send-IsOpen x) o),
          )
          refl
    | inr (s, q, o) ↦ rw (s, q) refl
  ]

  pub close_subscribers_lem : (f : Fanout A) → IsSafe f → close_subscribers f ≡ some (ended f)
  unfolding close_subscribers
  close_subscribers_lem f v = elim v.phase [
    | inl (s, q, o) ↦
        rw
          (
            s,
            q,
            for_each-range close shut [] f.channels (All-weaken IsOpen _ f.channels close-IsOpen o),
          )
          refl
    | inr (s, q, o) ↦ rw s refl
  ]

  pub sent-IsSafe : (x : A) (f : Fanout A) → IsSafe f → IsSafe (sent x f)
  sent-IsSafe x f v = elim v.phase [
    | inl (s, ids, o) ↦ rw s (record {
      bounded =
          All-map IsBounded IsBounded (delivered x) f.channels (delivered-IsBounded x) v.bounded;
      phase = inl (
        refl,
        ids ∙ ap (range 0) (sym (length-map (delivered x) f.channels)),
        All-map IsOpen IsOpen (delivered x) f.channels (delivered-IsOpen x) o,
      );
    })
    | inr (s, ids, o) ↦
        subst (λ b. IsSafe (if b then f else record f { channels = map (delivered x) f.channels }))
          (sym s) v
  ]

  pub ended-IsSafe : (f : Fanout A) → IsSafe f → IsSafe (ended f) × ((ended f).stopped ≡ true)
  ended-IsSafe f v = elim v.phase [
    | inl (s, ids, o) ↦ rw s (
      record {
        bounded = All-map IsBounded IsBounded shut f.channels (λ c h. h) v.bounded;
        phase =
            inr (refl, refl, All-map IsBounded IsClosed shut f.channels (λ c h. refl) v.bounded);
      },
      refl,
    )
    | inr (s, ids, o) ↦
        subst (λ b. IsSafe (ended_if b f) × ((ended_if b f).stopped ≡ true)) (sym s) (v, s)
  ]
