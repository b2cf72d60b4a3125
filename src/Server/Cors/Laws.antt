-- ===== src/Server/Cors/Laws.antt =====
-- Which origin a response names.
use mathlib.Core.List.{Memᴰ}
use mathlib.Core.List.Memᴰ
use twinval_go_backend.Prelude.{
  ◌≡◌, ◌≢◌, ◌⊎◌, inl, inr, refl, sym, ◌∙◌, some, List, [], ◌∷◌, arith, Bool-cases, Option-cases,
}
use twinval_go_backend.Prelude.Text.{Text, codes, text_eq, text_eq_iff}
use twinval_go_backend.Prelude.Maps.{lookup, insert, lookup-insert}
use twinval_go_backend.Api.Registry.{get}
use twinval_go_backend.Api.Handlers.{
  Handlers, Headers, allow_origin, set_cors, health, valuation, audit, json_type,
}
use twinval_go_backend.Server.Cors.{
  Strings, wildcard, parse_origins, match_origin, cors_headers, cors_middleware,
}

-- matchOrigin answers "*" or the request's origin, and only if that is in the list; it answers ""
-- only if neither is.
match_origin_cases :
    (allowed : List Text) (origin : Text)
    → ((match_origin allowed origin ≡ wildcard) × Memᴰ wildcard allowed)
      ⊎ ((match_origin allowed origin ≡ origin) × Memᴰ origin allowed)
      ⊎ ((match_origin allowed origin ≡ []) × ¬ Memᴰ wildcard allowed × ¬ Memᴰ origin allowed)
unfolding match_origin
match_origin_cases [] origin = inr (inr (refl, λ m. elim m [ ], λ m. elim m [ ]))
match_origin_cases (a ∷ allowed) origin = elim (Bool-cases (text_eq a wildcard)) [
  | inl w ↦ inl (rw (match_origin, w) refl, Memᴰ.head (sym ((text_eq_iff a wildcard).0 w)))
  | inr w ↦ elim (Bool-cases (text_eq a origin)) [
    | inl e ↦ inr (inl (rw (match_origin, w, e) refl, Memᴰ.head (sym ((text_eq_iff a origin).0 e))))
    | inr e ↦ elim (match_origin_cases allowed origin) [
      | inl (p, m) ↦ inl (rw (match_origin, w, e) p, Memᴰ.tail m)
      | inr (inl (p, m)) ↦ inr (inl (rw (match_origin, w, e) p, Memᴰ.tail m))
      | inr (inr (p, m, n)) ↦ inr (
          inr (
            rw (match_origin, w, e) p,
            λ k. elim (Memᴰ.cases_cons k) [
              | inl q ↦ ground (arith, text_eq_iff a wildcard)
              | inr l ↦ m l
            ],
            λ k. elim (Memᴰ.cases_cons k) [
              | inl q ↦ ground (arith, text_eq_iff a origin)
              | inr l ↦ n l
            ],
          ))
    ]
  ]
]

module _ {W : Type 0} where
  lookup-set_cors :
      (h : Handlers W) (hs : Headers) → lookup allow_origin (set_cors h hs) ≡ some h.cors_origin
  unfolding set_cors
  lookup-set_cors h hs =
      lookup-insert allow_origin (codes "Access-Control-Allow-Headers") (codes "Content-Type") (
        insert (codes "Access-Control-Allow-Methods") (codes "GET, POST, OPTIONS")
          (insert allow_origin h.cors_origin hs))
      ∙ lookup-insert allow_origin (codes "Access-Control-Allow-Methods")
          (codes "GET, POST, OPTIONS") (insert allow_origin h.cors_origin hs)
      ∙ lookup-insert allow_origin allow_origin h.cors_origin hs

  lookup-json_type :
      (h : Handlers W) (hs : Headers)
      → lookup allow_origin (json_type (set_cors h hs)) ≡ some h.cors_origin
  lookup-json_type h hs =
      lookup-insert allow_origin (codes "Content-Type") (codes "application/json") (set_cors h hs)
      ∙ lookup-set_cors h hs

  -- Whatever the allowlist of corsMiddleware and the request's origin, the response of Health, of
  -- Valuation and of Audit to a request that is no preflight names the handlers' CORSOrigin text as
  -- the allowed origin: what the middleware matched is overwritten.
  pub cors_middleware_overwritten :
      (lib : Strings) (csv method origin id : Text) (h : Handlers W)
      → method ≢ codes "OPTIONS"
      → (lookup allow_origin (cors_middleware lib csv (health h) method origin).headers
          ≡ some h.cors_origin)
        × (lookup allow_origin
              (cors_middleware lib csv (λ hs. valuation h hs id) method origin).headers
            ≡ some h.cors_origin)
        × (lookup allow_origin (cors_middleware lib csv (λ hs. audit h hs id) method origin).headers
            ≡ some h.cors_origin)
  unfolding cors_middleware health valuation audit
  cors_middleware_overwritten lib csv method origin id h n =
      let hs = cors_headers (parse_origins lib csv) origin in
      elim (Bool-cases (text_eq method (codes "OPTIONS"))) [
        | inl e ↦ absurd (n ((text_eq_iff method (codes "OPTIONS")).0 e))
        | inr e ↦ (
          rw (cors_middleware, e) (lookup-json_type h hs),
          elim (Option-cases (get h.registry id)) [
            | inl g ↦ rw (cors_middleware, e, valuation, g) (lookup-set_cors h hs)
            | inr (ps, g) ↦ rw (cors_middleware, e, valuation, g) (lookup-json_type h hs)
          ],
          elim (Option-cases (get h.registry id)) [
            | inl g ↦ rw (cors_middleware, e, audit, g) (lookup-set_cors h hs)
            | inr (ps, g) ↦ rw (cors_middleware, e, audit, g) (lookup-json_type h hs)
          ],
        )
      ]
