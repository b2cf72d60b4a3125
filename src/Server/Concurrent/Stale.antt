-- ===== src/Server/Concurrent/Stale.antt =====
-- Two calls of processBatch that overtake each other between Append and UpdateLatest.
use twinval_go_backend.Prelude.{ℕ, ◌≡◌, ◌≢◌, ◌∙◌, refl, ap, some, [], arith}
use twinval_go_backend.Float.{Float64}
use twinval_go_backend.Compute.Types.{ConditionedData}
use twinval_go_backend.Compute.Configs.{AllIndicatorConfigs}
use twinval_go_backend.Cryptochain.Types.{ValuationToken}
use twinval_go_backend.Cryptochain.Chain.{finalise, head, last}
use twinval_go_backend.Cryptochain.Chain.Laws.{last-snoc}
use twinval_go_backend.Api.Registry.{PropertyState}
use twinval_go_backend.Server.Pipeline.{Runtime, Times, token_input, process_property}
use twinval_go_backend.Server.Pipeline.Laws.{after-append}
use twinval_go_backend.Server.Concurrent.{
  Job, Stage, idle, System, at, job, send_step, append_step, quote_step, cache_step, by_begin,
  by_send, by_append, by_quote, by_cache, Reachable, here, next,
}

-- Both calls are over.
quiet :
    {W : Type 0} (s₁ s₂ s₃ s₄ s₅ s₆ s₇ s₉ : Stage W) (k : ℕ)
    → at
        (at
          (at
            (at (at (at (at (at (at (at (λ _. idle) 0 s₁) 1 s₂) 0 s₃) 0 s₄) 1 s₅) 1 s₆) 1 s₇)
            1
            idle)
          0
          s₉)
        0
        idle
        k
      ≡ idle
unfolding at
quiet s₁ s₂ s₃ s₄ s₅ s₆ s₇ s₉ k = ground arith

module _ {W : Type 0} ⦃d : Float64 W⦄ (rt : Runtime W) (cfgs : AllIndicatorConfigs W) where
  -- The steps of one call in a row are the sequential model.
  steps-process_property :
      (ps : PropertyState W) (cd : ConditionedData W) (now : Times)
      → let j = job cfgs ps cd now in
        let (quoted', params) = quote_step (append_step rt (send_step ps j) j) j in
        cache_step quoted' j params ≡ process_property rt ps cd cfgs now
  unfolding job send_step append_step quote_step cache_step process_property
  steps-process_property ps cd now = refl

  -- Two calls for one property with a name, whose readings give two different values: a state is
  -- reachable in which no call is under way, the newest token records the value of the second call,
  -- the cached value is that of the first, and so the value that is served is not the newest on
  -- record.
  pub cache_goes_stale :
      (ps : PropertyState W) (a b : ConditionedData W) (now₁ now₂ : Times)
      → ps.property_id ≢ []
      → (job cfgs ps a now₁).rtpmv ≢ (job cfgs ps b now₂).rtpmv
      → (s : System W) × Reachable rt cfgs ps s
        × ((k : ℕ) → s.calls k ≡ idle)
        × ((t : ValuationToken W) × (head s.property.chain ≡ some t)
            × (t.rtpmv ≡ (job cfgs ps b now₂).rtpmv)
            × (s.property.latest.latest_rtpmv ≡ (job cfgs ps a now₁).rtpmv)
            × (s.property.latest.latest_rtpmv ≢ t.rtpmv))
  unfolding at job send_step append_step quote_step cache_step head
  cache_goes_stale ps a b now₁ now₂ n differ =
      let first : Job W = job cfgs ps a now₁ in
      let second : Job W = job cfgs ps b now₂ in
      let r₀ : Reachable rt cfgs ps (record { property = ps; calls = λ _. idle }) = here in
      let r₁ = next r₀ (by_begin 0 a now₁ refl) in
      let r₂ = next r₁ (by_begin 1 b now₂ refl) in
      let r₃ = next r₂ (by_send 0 first refl) in
      let r₄ = next r₃ (by_append 0 first refl) in
      let r₅ = next r₄ (by_send 1 second refl) in
      let r₆ = next r₅ (by_append 1 second refl) in
      let r₇ = next r₆ (by_quote 1 second refl) in
      let r₈ = next r₇ (by_cache 1 second _ refl) in
      let r₉ = next r₈ (by_quote 0 first refl) in
      let r = next r₉ (by_cache 0 first _ refl) in
      let before = send_step (append_step rt (send_step ps first) first) second in
      let token = token_input rt before b second.indicators second.rtpmv now₂.token in
      (
        _,
        r,
        quiet _ _ _ _ _ _ _ _,
        (
          finalise rt.library before.chain.tokens token,
          ap last (after-append rt.library before.chain token n)
              ∙ last-snoc before.chain.tokens (finalise rt.library before.chain.tokens token),
          refl,
          refl,
          differ,
        ),
      )
