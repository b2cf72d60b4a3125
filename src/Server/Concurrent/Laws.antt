-- ===== src/Server/Concurrent/Laws.antt =====
-- What holds under every interleaving, and what does not.
use mathlib.Core.List.{Memᴰ}
use twinval_go_backend.Prelude.{
  ℕ, ◌≡◌, ◌≢◌, ◌⊎◌, inl, inr, refl, true, List, [], ◌∷◌, ◌++◌, Bool-cases, ◌==◌,
}
use mathlib.Core.Path.{subst}
use twinval_go_backend.Float.{Float64}
use twinval_go_backend.Compute.Configs.{AllIndicatorConfigs}
use twinval_go_backend.Cryptochain.Types.{ValuationToken, zero_hash}
use twinval_go_backend.Cryptochain.Chain.{finalise}
use twinval_go_backend.Cryptochain.Chain.Laws.{IsLinked, append-IsLinked}
use twinval_go_backend.Cryptochain.Verify.{verify}
use twinval_go_backend.Cryptochain.Verify.Correct.{verify-IsLinked}
use twinval_go_backend.Exchange.State as Exchange
use twinval_go_backend.Api.Registry.{PropertyState}
use twinval_go_backend.Server.Pipeline.{Runtime, token_input}
use twinval_go_backend.Server.Pipeline.Laws.{IsSound, after-append}
use twinval_go_backend.Server.Concurrent.{
  Job, Stage, idle, computed, sent, appended, quoted, System, at, send_step, append_step,
  quote_step, cache_step, Step, by_begin, by_send, by_append, by_quote, by_cache, Reachable, here,
  next,
}

module _ {W : Type 0} where
  -- A value that some token of the chain records.
  abbrev pub Recorded : List (ValuationToken W) → W → Type 0
  Recorded tokens v = (t : ValuationToken W) × Memᴰ t tokens × (t.rtpmv ≡ v)

  -- What a call may count on: once it has appended, its value is on record.
  abbrev IsBacked : List (ValuationToken W) → Stage W → Type 0
  IsBacked tokens idle = Unit
  IsBacked tokens (computed j) = Unit
  IsBacked tokens (sent j) = Unit
  IsBacked tokens (appended j) = Recorded tokens j.rtpmv
  IsBacked tokens (quoted j params) = Recorded tokens j.rtpmv × (params.rtpmv ≡ j.rtpmv)

  mem-left :
      (t : ValuationToken W) (xs ys : List (ValuationToken W)) → Memᴰ t xs → Memᴰ t (xs ++ ys)
  mem-left t [] ys m = elim m [ ]
  mem-left t (x ∷ xs) ys (Memᴰ.head e) = Memᴰ.head e
  mem-left t (x ∷ xs) ys (Memᴰ.tail m) = Memᴰ.tail (mem-left t xs ys m)

  mem-snoc : (t : ValuationToken W) (xs : List (ValuationToken W)) → Memᴰ t (xs ++ (t ∷ []))
  mem-snoc t [] = Memᴰ.head refl
  mem-snoc t (x ∷ xs) = Memᴰ.tail (mem-snoc t xs)

  more-Recorded : (xs ys : List (ValuationToken W)) (v : W) → Recorded xs v → Recorded (xs ++ ys) v
  more-Recorded xs ys v (t, m, e) = (t, mem-left t xs ys m, e)

  more-IsBacked :
      (xs ys : List (ValuationToken W)) (s : Stage W) → IsBacked xs s → IsBacked (xs ++ ys) s
  more-IsBacked xs ys idle _ = tt
  more-IsBacked xs ys (computed j) _ = tt
  more-IsBacked xs ys (sent j) _ = tt
  more-IsBacked xs ys (appended j) r = more-Recorded xs ys j.rtpmv r
  more-IsBacked xs ys (quoted j params) (r, e) = (more-Recorded xs ys j.rtpmv r, e)

  -- One call moves on.
  at-IsBacked :
      (tokens : List (ValuationToken W)) (calls : ℕ → Stage W) (i : ℕ) (stage : Stage W)
      → IsBacked tokens stage
      → ((k : ℕ) → IsBacked tokens (calls k))
      → (k : ℕ) → IsBacked tokens (at calls i stage k)
  unfolding at
  at-IsBacked tokens calls i stage b all k = elim (Bool-cases (k == i)) [
    | inl e ↦ rw (at, e) b
    | inr e ↦ rw (at, e) (all k)
  ]

module _ {W : Type 0} ⦃d : Float64 W⦄ (rt : Runtime W) (cfgs : AllIndicatorConfigs W) where
  -- The cached values are the first ones, or their value is on record and is the quoted one.
  pub record IsConsistent (start : PropertyState W) (s : System W) : Type 0 where
    pub named : s.property.property_id ≢ []
    pub linked : IsLinked rt.library zero_hash s.property.chain.tokens
    pub cached :
        (s.property.latest ≡ start.latest)
        ⊎ (Recorded s.property.chain.tokens s.property.latest.latest_rtpmv
            × (s.property.latest.latest_exchange_params.rtpmv ≡ s.property.latest.latest_rtpmv))
    pub backed : (k : ℕ) → IsBacked s.property.chain.tokens (s.calls k)

  call-IsBacked :
      {start : PropertyState W} (s : System W) (i : ℕ) {stage : Stage W}
      → IsConsistent start s
      → s.calls i ≡ stage
      → IsBacked s.property.chain.tokens stage
  call-IsBacked s i c e = subst (IsBacked s.property.chain.tokens) e (c.backed i)

  appended_tokens :
      (ps : PropertyState W) (j : Job W)
      → ps.property_id ≢ []
      → (t : ValuationToken W) × ((append_step rt ps j).chain.tokens ≡ ps.chain.tokens ++ (t ∷ []))
        × (t.rtpmv ≡ j.rtpmv)
  unfolding append_step
  appended_tokens ps j n =
      let token = token_input rt ps j.cd j.indicators j.rtpmv j.now.token in
      (finalise rt.library ps.chain.tokens token, after-append rt.library ps.chain token n, refl)

  append-IsConsistent :
      {start : PropertyState W} (s : System W) (i : ℕ) (j : Job W)
      → IsConsistent start s
      → IsConsistent start
          (record { property = append_step rt s.property j; calls = at s.calls i (appended j) })
  unfolding append_step
  append-IsConsistent s i j c =
      let ps = s.property in
      let (t, e, v) = appended_tokens ps j c.named in
      record {
        named = c.named;
        linked =
            append-IsLinked rt.library ps.chain
              (token_input rt ps j.cd j.indicators j.rtpmv j.now.token) c.linked;
        cached = elim c.cached [
          | inl q ↦ inl q
          | inr (r, q) ↦ inr (rw e (more-Recorded ps.chain.tokens (t ∷ []) _ r), q)
        ];
        backed = rw e (
            at-IsBacked (ps.chain.tokens ++ (t ∷ [])) s.calls i (appended j)
              (t, mem-snoc t ps.chain.tokens, v)
              (λ k. more-IsBacked ps.chain.tokens (t ∷ []) (s.calls k) (c.backed k)));
      }

  Step-IsConsistent :
      {start : PropertyState W} {s t : System W}
      → Step rt cfgs s t
      → IsConsistent start s
      → IsConsistent start t
  unfolding send_step quote_step cache_step Exchange.update
  Step-IsConsistent {s} (by_begin i cd now e) c = record {
    named = c.named;
    linked = c.linked;
    cached = c.cached;
    backed = at-IsBacked s.property.chain.tokens s.calls i _ tt c.backed;
  }
  Step-IsConsistent {s} (by_send i j e) c = record {
    named = c.named;
    linked = c.linked;
    cached = c.cached;
    backed = at-IsBacked s.property.chain.tokens s.calls i (sent j) tt c.backed;
  }
  Step-IsConsistent {s} (by_append i j e) c = append-IsConsistent s i j c
  Step-IsConsistent {s} (by_quote i j e) c = record {
    named = c.named;
    linked = c.linked;
    cached = c.cached;
    backed = at-IsBacked s.property.chain.tokens s.calls i _ (call-IsBacked s i c e, refl) c.backed;
  }
  Step-IsConsistent {s} (by_cache i j params e) c = record {
    named = c.named;
    linked = c.linked;
    cached = inr (call-IsBacked s i c e);
    backed = at-IsBacked s.property.chain.tokens s.calls i idle tt c.backed;
  }

  Reachable-IsConsistent :
      {start : PropertyState W} {s : System W}
      → IsSound rt.library start
      → Reachable rt cfgs start s
      → IsConsistent start s
  Reachable-IsConsistent v here = record {
    named = v.named;
    linked = v.linked;
    cached = inl refl;
    backed = λ _. tt;
  }
  Reachable-IsConsistent v (next r st) = Step-IsConsistent st (Reachable-IsConsistent v r)

  -- From a property with a name and a linked chain, after any interleaving of any number of calls of
  -- processBatch: Verify accepts the chain. The cached values are those from the start, or their
  -- value is recorded by a token of the chain and is the value of the cached quote.
  pub interleaved_calls_verify :
      (start : PropertyState W) (s : System W)
      → IsSound rt.library start
      → Reachable rt cfgs start s
      → ((verify rt.library s.property.chain).chain_valid ≡ true)
        × ((s.property.latest ≡ start.latest)
            ⊎ (Recorded s.property.chain.tokens s.property.latest.latest_rtpmv
                × (s.property.latest.latest_exchange_params.rtpmv
                    ≡ s.property.latest.latest_rtpmv)))
  interleaved_calls_verify start s v r =
      let c = Reachable-IsConsistent v r in
      ((verify-IsLinked rt.library s.property.chain c.linked).0, c.cached)
