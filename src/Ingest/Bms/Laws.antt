-- ===== src/Ingest/Bms/Laws.antt =====
-- The poller in every state that it can reach.
use mathlib.Core.Path.{subst}
use mathlib.Core.Option.{some-injective}
use twinval_go_backend.Prelude.{
  ◌≡◌, ◌≢◌, ◌⊎◌, inl, inr, refl, sym, ap, ◌∙◌, true, false, none, some, [], arith, Bool-cases, All,
  ◌==◌, ==_iff,
}
use twinval_go_backend.Prelude.Text.{text_eq, text_eq_iff}
use twinval_go_backend.Channel.Store.{IsClosed}
use twinval_go_backend.Ingest.Types.{IngestConfig, BmsResponse}
use twinval_go_backend.Ingest.Fanout.Laws.{
  IsSafe, sent, ended, subscribe-IsSafe, receive-IsSafe, broadcast_lem, close_subscribers_lem,
  sent-IsSafe, ended-IsSafe,
}
use twinval_go_backend.Ingest.Bms.{
  cancelled, finished, BmsAdapter, PollResult, request_error, client_error, responded,
  new_bms_adapter, bms_response_to_batch, subscribe_bms, broadcast_bms, close_bms, poll_once,
  start_bms, stop_returns_bms, Step, by_start, by_first, by_tick, by_cancel, by_close, by_subscribe,
  by_receive, Reachable, start, next,
}

module _ {W : Type 0} where
  -- A response that counts: the poller has a URL, the status is 200 and the body decodes.
  pub record Delivers (b : BmsAdapter W) (r : PollResult W) (resp : BmsResponse W) : Type 0 where
    pub url : b.cfg.bms_poll_url ≢ []
    pub result : r ≡ responded 200 (some resp)

  -- What a poll does, by its result.
  abbrev pub Polls : BmsAdapter W → PollResult W → Type 0
  Polls b r =
      ((poll_once b r ≡ some b) × ((resp : BmsResponse W) → ¬ Delivers b r resp))
      ⊎ ((resp : BmsResponse W) × Delivers b r resp
          × (poll_once b r
              ≡ some (record b { fanout = sent (bms_response_to_batch resp b.cfg) b.fanout })))

  poll_once_lem : (b : BmsAdapter W) (r : PollResult W) → IsSafe b.fanout → Polls b r
  unfolding poll_once
  poll_once_lem b r v = elim (Bool-cases (text_eq b.cfg.bms_poll_url [])) [
    | inl e ↦ inl (rw e refl, λ resp d. d.url ((text_eq_iff b.cfg.bms_poll_url []).0 e))
    | inr e ↦ by_result r e
  ]
    where
      by_result : (r : PollResult W) → text_eq b.cfg.bms_poll_url [] ≡ false → Polls b r
      by_result request_error e = inl (rw e refl, λ resp d. ground (arith, d.result))
      by_result client_error e = inl (rw e refl, λ resp d. ground (arith, d.result))
      by_result (responded s none) e = inl (ground arith, λ resp d. ground (arith, d.result))
      by_result (responded s (some resp)) e = elim (Bool-cases (s == 200)) [
        | inr n ↦ inl (rw (e, n) refl, λ resp d. ground (arith, d.result))
        | inl n ↦ inr (
          resp,
          record {
            url = λ u. ground (arith, text_eq_iff b.cfg.bms_poll_url []);
            result = ap (λ t. responded t (some resp)) ((==_iff s 200).0 n);
          },
          rw (e, n, broadcast_bms, broadcast_lem b.fanout (bms_response_to_batch resp b.cfg) v)
              refl,
        )
      ]

  poll-IsSafe :
      (b b' : BmsAdapter W) (r : PollResult W)
      → poll_once b r ≡ some b'
      → IsSafe b.fanout
      → IsSafe b'.fanout
  poll-IsSafe b b' r e v = elim (poll_once_lem b r v) [
    | inl (f, n) ↦ subst (λ (c : BmsAdapter W). IsSafe c.fanout) (some-injective _ _ (sym f ∙ e)) v
    | inr (resp, d, f) ↦
        subst (λ (c : BmsAdapter W). IsSafe c.fanout) (some-injective _ _ (sym f ∙ e))
          (sent-IsSafe (bms_response_to_batch resp b.cfg) b.fanout v)
  ]

  close_bms_lem :
      (b : BmsAdapter W)
      → IsSafe b.fanout
      → close_bms b ≡ some (record b { fanout = ended b.fanout })
  unfolding close_bms
  close_bms_lem b v = rw (close_subscribers_lem b.fanout v) refl

  Step-IsSafe : {b b' : BmsAdapter W} → Step b b' → IsSafe b.fanout → IsSafe b'.fanout
  unfolding start_bms subscribe_bms
  Step-IsSafe (by_start b e) v = v
  Step-IsSafe (by_first b b' r e f) v = poll-IsSafe b b' r f v
  Step-IsSafe (by_tick b b' r e f) v = poll-IsSafe b b' r f v
  Step-IsSafe (by_cancel b e) v = v
  Step-IsSafe (by_close b b' e f) v =
      subst (λ (c : BmsAdapter W). IsSafe c.fanout)
        (some-injective _ _ (sym (close_bms_lem b v) ∙ f)) (ended-IsSafe b.fanout v).0
  Step-IsSafe (by_subscribe b) v = subscribe-IsSafe b.fanout v
  Step-IsSafe (by_receive b f i e) v = receive-IsSafe b.fanout f i e v

  pub Reachable-IsSafe :
      (cfg : IngestConfig W) (b : BmsAdapter W) → Reachable cfg b → IsSafe b.fanout
  unfolding new_bms_adapter
  Reachable-IsSafe cfg _ start = record { bounded = tt; phase = inl (refl, refl, tt) }
  Reachable-IsSafe cfg _ (next b b' r s) = Step-IsSafe s (Reachable-IsSafe cfg b r)

  -- In every reachable state a poll does not panic. If there is a URL, the status is 200 and the
  -- body decodes, the response's batch goes to each subscriber that has room for it. In all other
  -- cases nothing changes.
  pub poll_once_delivers :
      (cfg : IngestConfig W) (b : BmsAdapter W) (r : PollResult W) → Reachable cfg b → Polls b r
  poll_once_delivers cfg b r h = poll_once_lem b r (Reachable-IsSafe cfg b h)

  -- The deferred closeSubscribers does not panic, closes every channel, and lets Stop return.
  close_bms_terminates :
      (cfg : IngestConfig W) (b : BmsAdapter W)
      → Reachable cfg b
      → b.run ≡ cancelled
      → (b' : BmsAdapter W) × (close_bms b ≡ some b')
        × All IsClosed b'.fanout.channels
        × (stop_returns_bms (record b' { run = finished }) ≡ true)
  unfolding stop_returns_bms
  close_bms_terminates cfg b h e =
      let v = Reachable-IsSafe cfg b h in
      let (s, t) = ended-IsSafe b.fanout v in
      (
        record b { fanout = ended b.fanout },
        close_bms_lem b v,
        elim s.phase [ inl (q, ids, o) ↦ absurd (ground arith) | inr (q, ids, o) ↦ o ],
        refl,
      )
