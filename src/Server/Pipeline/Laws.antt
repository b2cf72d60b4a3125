-- ===== src/Server/Pipeline/Laws.antt =====
-- What one batch does to the registry, and what all batches keep.
use twinval_go_backend.Prelude.{
  ◌≡◌, ◌≢◌, ◌⊎◌, inl, inr, refl, ap, ◌∙◌, false, none, some, List, [], ◌∷◌, ◌++◌, arith, All,
  All_of_mem, Option-cases,
}
use twinval_go_backend.Prelude.Text.{Text, text_eq_iff}
use twinval_go_backend.Float.{Float64}
use twinval_go_backend.Compute.Types.{ConditionedData}
use twinval_go_backend.Compute.Configs.{AllIndicatorConfigs}
use twinval_go_backend.Condition.Types.{RawSensorBatch, ConditioningConfig}
use twinval_go_backend.Condition.Process.{process}
use twinval_go_backend.Cryptochain.Types.{ValuationToken, zero_hash}
use twinval_go_backend.Cryptochain.Hasher.{Library}
use twinval_go_backend.Cryptochain.Chain.{CryptoChain, append, head, finalise, is_zero_value, last}
use twinval_go_backend.Cryptochain.Chain.Laws.{IsLinked, append-IsLinked, after, last-snoc}
use twinval_go_backend.Exchange.State as Exchange
use twinval_go_backend.Config.{AppConfig}
use twinval_go_backend.Api.Registry.{PropertyState, PropertyRegistry, get, set}
use twinval_go_backend.Api.Registry.Laws.{get-set, get-set_self, Registered, set-Registered}
use twinval_go_backend.Server.Pipeline.{
  Runtime, Times, Server, token_input, process_property, route, process_batch, run_pipeline,
}

module _ {W : Type 0} ⦃d : Float64 W⦄ where
  named-is_zero_value : (t : ValuationToken W) → t.property_id ≢ [] → is_zero_value t ≡ false
  unfolding is_zero_value
  named-is_zero_value t n = ground (arith, text_eq_iff t.property_id [])

  pub after-append :
      (lib : Library W) (c : CryptoChain W) (t : ValuationToken W)
      → t.property_id ≢ []
      → (after lib c (append lib c t)).tokens ≡ c.tokens ++ (finalise lib c.tokens t ∷ [])
  unfolding append
  after-append lib c t n = rw (append, named-is_zero_value t n) refl

  -- The cached values, the newest token and the quote tell the same value.
  pub record IsCurrent (ps : PropertyState W) : Type 0 where
    pub token :
        (t : ValuationToken W) × (head ps.chain ≡ some t)
        × (t.property_id ≡ ps.property_id)
        × (t.rtpmv ≡ ps.latest.latest_rtpmv)
    pub quote : ps.latest.latest_exchange_params ≡ ps.exchange.params
    pub value : ps.exchange.params.rtpmv ≡ ps.latest.latest_rtpmv

  -- A property that has a name, a linked chain, and current values once it has a token.
  pub record IsSound (lib : Library W) (ps : PropertyState W) : Type 0 where
    pub named : ps.property_id ≢ []
    pub linked : IsLinked lib zero_hash ps.chain.tokens
    pub current : (ps.chain.tokens ≡ []) ⊎ IsCurrent ps

module _ {W : Type 0} ⦃d : Float64 W⦄ (rt : Runtime W) where
  process_property-IsCurrent :
      (ps : PropertyState W) (cd : ConditionedData W) (cfgs : AllIndicatorConfigs W) (now : Times)
      → ps.property_id ≢ []
      → IsCurrent (process_property rt ps cd cfgs now)
  unfolding process_property head Exchange.update
  process_property-IsCurrent ps cd cfgs now n =
      let t = token_input rt ps cd _ _ now.token in
      record {
        token = (
          finalise rt.library ps.chain.tokens t,
          ap last (after-append rt.library ps.chain t n) ∙ last-snoc ps.chain.tokens _,
          refl,
          refl,
        );
        quote = refl;
        value = refl;
      }

  process_property-IsSound :
      (ps : PropertyState W) (cd : ConditionedData W) (cfgs : AllIndicatorConfigs W) (now : Times)
      → IsSound rt.library ps
      → IsSound rt.library (process_property rt ps cd cfgs now)
  unfolding process_property
  process_property-IsSound ps cd cfgs now v = record {
    named = v.named;
    linked = append-IsLinked rt.library ps.chain (token_input rt ps cd _ _ now.token) v.linked;
    current = inr (process_property-IsCurrent ps cd cfgs now v.named);
  }

  -- Every property that is registered is sound.
  abbrev pub AllSound : PropertyRegistry W → Type 0
  AllSound = Registered (IsSound rt.library)

  -- What processBatch does to a property that is not registered, and to one that is.
  module _ (cfg : AppConfig W) (cond_cfg : ConditioningConfig W)
      (cfgs : AllIndicatorConfigs W) where
    dropped :
        (s : Server W) (batch : RawSensorBatch W) (now : Times)
        → get s.registry (route cfg batch) ≡ none
        → process_batch rt cfg s batch cond_cfg cfgs now ≡ s
    unfolding process_batch
    dropped s batch now e = rw (process_batch, e) refl

    pub routed :
        (s : Server W) (batch : RawSensorBatch W) (now : Times) (ps : PropertyState W)
        → get s.registry (route cfg batch) ≡ some ps
        → (process_batch rt cfg s batch cond_cfg cfgs now).registry
          ≡ set s.registry
              (route cfg batch)
              (process_property rt ps (process rt.sorting batch cond_cfg).0 cfgs now)
    unfolding process_batch
    routed s batch now ps e = rw (process_batch, e) refl

    -- What a good batch keeps of its property, it keeps of every registered one.
    module _ (P : PropertyState W → Type 0) (Good : RawSensorBatch W → Type 0)
        (keeps : (ps : PropertyState W) (batch : RawSensorBatch W) (now : Times)
          → Good batch
          → P ps
          → P (process_property rt ps (process rt.sorting batch cond_cfg).0 cfgs now)) where
      process_batch-Registered :
          (s : Server W) (batch : RawSensorBatch W) (now : Times)
          → Good batch
          → Registered P s.registry
          → Registered P (process_batch rt cfg s batch cond_cfg cfgs now).registry
      process_batch-Registered s batch now good all =
          elim (Option-cases (get s.registry (route cfg batch))) [
            | inl e ↦ rw (dropped s batch now e) all
            | inr (ps, e) ↦
                let cd = (process rt.sorting batch cond_cfg).0 in
                rw (routed s batch now ps e) (
                  set-Registered P s.registry (route cfg batch) (process_property rt ps cd cfgs now)
                    (keeps ps batch now good (all (route cfg batch) ps e)) all)
          ]

      pub run_pipeline-Registered :
          (s : Server W) (batches : List (RawSensorBatch W × Times))
          → All (λ (b : RawSensorBatch W × Times). Good b.0) batches
          → Registered P s.registry
          → Registered P (run_pipeline rt cfg cond_cfg cfgs s batches).registry
      unfolding run_pipeline
      run_pipeline-Registered s [] _ all = all
      run_pipeline-Registered s ((batch, now) ∷ rest) (good, goods) all =
          run_pipeline-Registered (process_batch rt cfg s batch cond_cfg cfgs now) rest goods
            (process_batch-Registered s batch now good all)

    pub run_pipeline-AllSound :
        (s : Server W) (batches : List (RawSensorBatch W × Times))
        → AllSound s.registry
        → AllSound (run_pipeline rt cfg cond_cfg cfgs s batches).registry
    run_pipeline-AllSound s batches all =
        run_pipeline-Registered (IsSound rt.library) (λ _. Unit {0})
          (λ ps batch now _ v. process_property-IsSound ps _ cfgs now v) s batches
          (All_of_mem _ batches (λ _ _. tt)) all

    -- processBatch on a registry of sound properties. If the batch's property (the configured one
    -- if the batch names none) is not registered, the server stays as it is. Otherwise every other
    -- id keeps what it has; the property keeps its identity and its baseline, its chain is longer
    -- by exactly one token, and that token, the quote and the cached values tell the same value.
    pub process_batch-IsCurrent :
        (s : Server W) (batch : RawSensorBatch W) (now : Times)
        → AllSound s.registry
        → let s' = process_batch rt cfg s batch cond_cfg cfgs now in
          ((get s.registry (route cfg batch) ≡ none) × (s' ≡ s))
          ⊎ ((ps : PropertyState W) × (ps' : PropertyState W) × (get s.registry (route cfg batch)
                ≡ some ps)
              × (get s'.registry (route cfg batch) ≡ some ps')
              × ((id : Text) → id ≢ route cfg batch → get s'.registry id ≡ get s.registry id)
              × (ps'.property_id ≡ ps.property_id)
              × (ps'.baseline ≡ ps.baseline)
              × ((t : ValuationToken W) × (ps'.chain.tokens ≡ ps.chain.tokens ++ (t ∷ [])))
              × IsCurrent ps')
    unfolding process_property
    process_batch-IsCurrent s batch now all =
        elim (Option-cases (get s.registry (route cfg batch))) [
          | inl e ↦ inl (e, dropped s batch now e)
          | inr (ps, e) ↦
              let cd = (process rt.sorting batch cond_cfg).0 in
              let ps' = process_property rt ps cd cfgs now in
              let n = (all (route cfg batch) ps e).named in
              inr (
                ps,
                ps',
                e,
                rw (routed s batch now ps e) (get-set_self s.registry (route cfg batch) ps'),
                λ id ne. rw (routed s batch now ps e) (
                    ground (
                      arith,
                      get-set s.registry id (route cfg batch) ps',
                      text_eq_iff id (route cfg batch),
                    )),
                refl,
                refl,
                (let token = token_input rt ps cd _ _ now.token in
                    (
                      finalise rt.library ps.chain.tokens token,
                      after-append rt.library ps.chain token n,
                    )),
                process_property-IsCurrent ps cd cfgs now n,
              )
        ]
