-- ===== src/Api/Handlers/Laws.antt =====
-- The window of the chain handler, and the list of the properties handler.
use mathlib.Core.List.{Permᴰ}
use Prim.Native.Nat.{min}
use twinval_go_backend.Prelude.{
  ℕ, zero, suc, ◌+◌, ◌-◌, ◌^◌, ◌<◌, ◌≡◌, ◌⊎◌, inl, inr, refl, sym, ap, ◌∙◌, Option, none, some,
  List, [], ◌∷◌, map, length, drop, get_elem?, arith, All, length-map, Option-cases,
}
use twinval_go_backend.Prelude.Int.{ℤ, pos, negsuc, pos_part, ◌-ℤ◌, ◌≤ℤ◌}
use twinval_go_backend.Prelude.Text.{Text}
use twinval_go_backend.Prelude.Maps.{lookup, keys}
use twinval_go_backend.Float.{Float64}
use twinval_go_backend.Cryptochain.Chain.{CryptoChain, get_token}
use twinval_go_backend.Cryptochain.Chain as Chain
use twinval_go_backend.Api.Registry.{PropertyState, PropertyRegistry, get, len, snapshot_all}
use twinval_go_backend.Api.Registry.Laws.{IsSome, snapshot_all_lem}
use twinval_go_backend.Api.Handlers.{
  Handlers, Headers, json, ok_json, not_found, set_cors, Response, ChainResponse,
  PropertiesResponse, limit_or, window_start, collect, chain_window, chain, summary, summaries,
  properties,
}

module _ {ℓ} {A : Type ℓ} where
  drop-next :
      (xs : List A) (i : ℕ)
      → i < length xs
      → (x : A) × (get_elem? xs i ≡ some x) × (drop i xs ≡ x ∷ drop (suc i) xs)
  drop-next [] i h = absurd (omega arith)
  drop-next (x ∷ xs) zero h = (x, refl, refl)
  drop-next (x ∷ xs) (suc i) h = drop-next xs i (omega arith)

  drop-all : (xs : List A) (i : ℕ) → length xs ≡ i → drop i xs ≡ []
  drop-all [] zero h = refl
  drop-all [] (suc i) h = refl
  drop-all (x ∷ xs) zero h = absurd (omega arith)
  drop-all (x ∷ xs) (suc i) h = drop-all xs i (omega arith)

  length-drop : (i : ℕ) (xs : List A) → length (drop i xs) ≡ length xs - i
  length-drop zero xs = omega arith
  length-drop (suc i) [] = omega arith
  length-drop (suc i) (x ∷ xs) = omega (arith, length-drop i xs)

window_start-pos :
    (total n : ℕ) → total < 2 ^ 63 → n < 2 ^ 63 → window_start total (pos n) ≡ total - n
unfolding window_start
window_start-pos total n h k = ground arith

window_start-negsuc :
    (total k : ℕ) → total + k + 1 < 2 ^ 63 → window_start total (negsuc k) ≡ total + k + 1
unfolding window_start
window_start-negsuc total k h = ground arith

module _ {W : Type 0} where
  collect-eq-drop :
      (c : CryptoChain W) (i n : ℕ) → i + n ≡ length c.tokens → collect c i n ≡ drop i c.tokens
  unfolding collect
  collect-eq-drop c i zero h = sym (drop-all c.tokens i (omega arith))
  collect-eq-drop c i (suc n) h =
      let (x, e, f) = drop-next c.tokens i (omega arith) in
      rw (collect, e, f) (ap (λ xs. x ∷ xs) (collect-eq-drop c (suc i) n (omega arith)))

  -- With a limit from 0 on, the handler returns the last tokens, as many as the limit allows,
  -- oldest first; with a negative limit `make` panics.
  chain_window-eq-drop :
      (c : CryptoChain W) (n : ℕ)
      → Chain.len c < 2 ^ 63
      → n < 2 ^ 63
      → chain_window c (pos n) ≡ some (drop (Chain.len c - n) c.tokens)
  unfolding chain_window ◌-ℤ◌ Chain.len
  chain_window-eq-drop c n h k =
      let s = window_start-pos (length c.tokens) n h k in
      ground (
        arith,
        s,
        collect-eq-drop c (length c.tokens - n) (length c.tokens - (length c.tokens - n)),
      )

  chain_window-negsuc :
      (c : CryptoChain W) (k : ℕ) → Chain.len c + k + 1 < 2 ^ 63 → chain_window c (negsuc k) ≡ none
  unfolding chain_window ◌-ℤ◌ Chain.len
  chain_window-negsuc c k h = ground (arith, window_start-negsuc (length c.tokens) k h)

-- A limit that the handler may use.
pub record IsLimit (limit : ℤ) : Type 0 where
  pub positive : pos 1 ≤ℤ limit
  pub in_range : limit ≤ℤ pos (2 ^ 63 - 1)

limit_or-IsLimit :
    (atoi : Text → Option ℤ) (default : ℤ) (l : Text)
    → ((n : ℤ) → atoi l ≡ some n → n ≤ℤ pos (2 ^ 63 - 1))
    → IsLimit default
    → IsLimit (limit_or atoi default l)
unfolding limit_or
limit_or-IsLimit atoi default l h d = elim (Option-cases (atoi l)) [
  | inl e ↦ record { positive = ground arith; in_range = ground arith }
  | inr (n, e) ↦ record { positive = ground arith; in_range = ground (arith, h n e) }
]

module _ {W : Type 0} where
  -- The response to a request for a property that is registered.
  pub record Returns (ps : PropertyState W) (limit : ℤ) (r : Response (ChainResponse W))
      : Type 0 where
    pub status : r.status ≡ 200
    pub body :
        (b : ChainResponse W) × (r.body ≡ json b)
        × (b.property_id ≡ ps.property_id)
        × (b.total ≡ Chain.len ps.chain)
        × (b.tokens ≡ drop (Chain.len ps.chain - pos_part limit) ps.chain.tokens)
        × (b.returned ≡ min (pos_part limit) (Chain.len ps.chain))

  window_returns :
      (ps : PropertyState W) (limit : ℤ)
      → Chain.len ps.chain < 2 ^ 63
      → IsLimit limit
      → (chain_window ps.chain limit
          ≡ some (drop (Chain.len ps.chain - pos_part limit) ps.chain.tokens))
        × (length (drop (Chain.len ps.chain - pos_part limit) ps.chain.tokens)
            ≡ min (pos_part limit) (Chain.len ps.chain))
  unfolding Chain.len
  window_returns ps (pos n) h v = (
    chain_window-eq-drop ps.chain n h (omega (arith, v.in_range)),
    omega (arith, length-drop (length ps.chain.tokens - n) ps.chain.tokens),
  )
  window_returns ps (negsuc n) h v = absurd (ground (arith, v.positive))

  -- Chain, with a default limit that is positive, never panics. It answers 404 exactly for an id
  -- that is not registered; otherwise 200 with the last tokens of the property's chain, oldest
  -- first, as many as the limit and the chain allow.
  pub chain-Returns :
      (atoi : Text → Option ℤ) (h : Handlers W) (hs : Headers) (id query : Text)
      → IsLimit h.default_chain_limit
      → ((n : ℤ) → atoi query ≡ some n → n ≤ℤ pos (2 ^ 63 - 1))
      → ((ps : PropertyState W) → get h.registry id ≡ some ps → Chain.len ps.chain < 2 ^ 63)
      → (r : Response (ChainResponse W)) × (chain atoi h hs id query ≡ some r)
        × (((get h.registry id ≡ none) × (r.status ≡ 404))
            ⊎ ((ps : PropertyState W) × (get h.registry id ≡ some ps)
                × Returns ps (limit_or atoi h.default_chain_limit query) r))
  unfolding chain
  chain-Returns atoi h hs id query d a small = elim (Option-cases (get h.registry id)) [
    | inl e ↦ (not_found (set_cors h hs), rw (chain, e) refl, inl (e, refl))
    | inr (ps, e) ↦
        let limit = limit_or atoi h.default_chain_limit query in
        let (w, n) =
          window_returns ps limit (small ps e)
            (limit_or-IsLimit atoi h.default_chain_limit query a d) in
        let tokens = drop (Chain.len ps.chain - pos_part limit) ps.chain.tokens in
        let b : ChainResponse W = record {
          property_id = ps.property_id;
          total = Chain.len ps.chain;
          returned = length tokens;
          tokens = tokens;
        } in
        (
          ok_json (set_cors h hs) b,
          rw (chain, e, w) refl,
          inr (ps, e, record { status = refl; body = (b, refl, refl, refl, refl, n) }),
        )
  ]

  -- With a negative default limit, which TWINVAL_CHAIN_LIMIT may set, Chain panics for a registered
  -- property, whose chain is not too long for Go's `int`, if the request names no limit.
  pub chain_panics :
      (atoi : Text → Option ℤ) (h : Handlers W) (hs : Headers) (id : Text) (ps : PropertyState W)
      (k : ℕ)
      → h.default_chain_limit ≡ negsuc k
      → get h.registry id ≡ some ps
      → Chain.len ps.chain + k + 1 < 2 ^ 63
      → chain atoi h hs id [] ≡ none
  unfolding chain limit_or
  chain_panics atoi h hs id ps k e f small =
      rw (chain, f, e, chain_window-negsuc ps.chain k small) refl

module _ {W : Type 0} ⦃d : Float64 W⦄ where
  summaries-All :
      (ks : List Text) (r : PropertyRegistry W)
      → All (λ k. IsSome (lookup k r)) ks
      → (out : List _) × (summaries (map (λ k. lookup k r) ks) ≡ some out)
        × (length out ≡ length ks)
  unfolding summaries
  summaries-All [] r h = ([], refl, refl)
  summaries-All (k ∷ ks) r ((ps, e), h) =
      let (out, f, n) = summaries-All ks r h in (summary ps ∷ out, rw (e, f) refl, ap suc n)

  -- Properties meets no nil pointer, if sort.Strings permutes: it answers 200 with one row for each
  -- registered property.
  properties_total :
      (sort_strings : List Text → List Text) (h : Handlers W) (hs : Headers)
      → Permᴰ (sort_strings (keys h.registry)) (keys h.registry)
      → (b : PropertiesResponse W) × (properties sort_strings h hs
          ≡ some (ok_json (set_cors h hs) b))
        × (b.total ≡ len h.registry)
        × (length b.properties ≡ len h.registry)
  unfolding properties len snapshot_all
  properties_total sort_strings h hs p =
      let (n, all) = snapshot_all_lem sort_strings h.registry p in
      let (out, e, m) = summaries-All (sort_strings (keys h.registry)) h.registry all in
      let count : length out ≡ length h.registry =
        m ∙ sym (length-map (λ k. lookup k h.registry) (sort_strings (keys h.registry))) ∙ n in
      (record { total = length out; properties = out }, rw e refl, count, count)
