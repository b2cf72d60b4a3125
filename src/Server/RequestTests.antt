-- ===== src/Server/RequestTests.antt =====
-- The theorems on api and on the CORS middleware of cmd/api at concrete inputs, over whole
-- ten-thousandths.
use mathlib.Core.Path.{subst}
use mathlib.Core.Option.{some-injective}
use twinval_go_backend.Prelude.{
  ℕ, ◌+◌, ◌^◌, ◌<◌, ◌≡◌, ◌⊎◌, refl, Bool, not, none, some, List, [], ◌∷◌, arith, keep, ◌==◌,
  if◌then◌else◌,
}
use twinval_go_backend.Prelude.Int.{ℤ, pos, negsuc}
use twinval_go_backend.Prelude.Text.{Text, codes, text_eq}
use twinval_go_backend.Prelude.Maps.{lookup}
use twinval_go_backend.Float.{fl}
use twinval_go_backend.Float.Fixed.{Fixed, fixed_float}
use twinval_go_backend.Cryptochain.Types.{ValuationToken}
use twinval_go_backend.Cryptochain.Chain as Chain
use twinval_go_backend.Api.Registry.{PropertyState, get, set}
use twinval_go_backend.Api.Handlers.{
  Handlers, Response, ChainResponse, limit_or, chain, allow_origin, health, valuation, audit,
}
use twinval_go_backend.Api.Handlers.Laws.{Returns, chain-Returns, chain_panics}
use twinval_go_backend.Api.Hub.{Hub, conns_of, broadcast_json}
use twinval_go_backend.Api.Hub.Laws.{broadcast_json-conns_of}
use twinval_go_backend.Server.Cors.{Strings, cors_middleware}
use twinval_go_backend.Server.Cors.Laws.{cors_middleware_overwritten}
use twinval_go_backend.Server.Tests.{property}

abbrev token : ℕ → ValuationToken Fixed
token n = record {
  token_id = n;
  property_id = codes "P1";
  timestamp = pos n;
  conditioned_data_hash = codes "c";
  indicators_hash = codes "i";
  rtpmv = fl 5;
  currency = codes "MYR";
  preceding_hash = codes "p";
  token_hash = codes "t";
}

-- Three tokens, of which two are asked for.
abbrev valued : PropertyState Fixed
valued = record property {
  chain = record { cfg = property.chain.cfg; tokens = token 1 ∷ token 2 ∷ token 3 ∷ [] };
}

abbrev handlers : ℤ → Handlers Fixed
handlers limit = record {
  registry = set [] (codes "P1") valued;
  cors_origin = codes "https://a,https://b";
  default_chain_limit = limit;
  version = codes "1.0.0";
}

valued-get : get (handlers (pos 2)).registry (codes "P1") ≡ some valued
unfolding get set
valued-get = refl

valued-small :
    (ps : PropertyState Fixed)
    → get (handlers (pos 2)).registry (codes "P1") ≡ some ps
    → Chain.len ps.chain < 2 ^ 63
unfolding get set Chain.len
valued-small ps e =
    subst (λ (qs : PropertyState Fixed). Chain.len qs.chain < 2 ^ 63) (some-injective valued ps e)
      (omega arith)

chain_example :
    (r : Response (ChainResponse Fixed)) × (chain (λ s. none) (handlers (pos 2)) [] (codes "P1") []
      ≡ some r)
    × (((get (handlers (pos 2)).registry (codes "P1") ≡ none) × (r.status ≡ 404))
        ⊎ ((ps : PropertyState Fixed) × (get (handlers (pos 2)).registry (codes "P1") ≡ some ps)
            × Returns ps (limit_or (λ s. none) (pos 2) []) r))
chain_example =
    chain-Returns (λ s. none) (handlers (pos 2)) [] (codes "P1") []
      (record { positive = omega arith; in_range = omega arith }) (λ n e. cc) valued-small

valued-short : Chain.len valued.chain + 0 + 1 < 2 ^ 63
unfolding Chain.len
valued-short = omega arith

chain_panics_example : chain (λ s. none) (handlers (negsuc 0)) [] (codes "P1") [] ≡ none
chain_panics_example =
    chain_panics (λ s. none) (handlers (negsuc 0)) [] (codes "P1") valued 0 refl valued-get
      valued-short

abbrev hub : Hub
hub = (codes "P1", 1 ∷ 2 ∷ 3 ∷ []) ∷ (codes "P2", 2 ∷ []) ∷ []

-- Connection 2 fails.
abbrev send : ℕ → ℕ → Bool
send c payload = not (c == 2)

broadcast_json_example :
    let (h', closed) = broadcast_json send (codes "P1") 7 hub in
    (conns_of (codes "P2") h' ≡ (
      if text_eq (codes "P2") (codes "P1")
      then keep (λ c. send c 7) (conns_of (codes "P1") hub)
      else conns_of (codes "P2") hub))
    × (closed ≡ keep (λ c. not (send c 7)) (conns_of (codes "P1") hub))
broadcast_json_example = broadcast_json-conns_of send (codes "P1") (codes "P2") 7 hub

abbrev allowed : List Text
allowed = codes "https://a" ∷ codes "https://b" ∷ []

abbrev strings : Strings
strings = record { split = λ s. allowed; trim_space = λ s. s }

abbrev csv : Text
csv = codes "https://a,https://b"

cors_middleware_example :
    (lookup allow_origin
        (cors_middleware strings csv
          (health (handlers (pos 2)))
          (codes "GET")
          (codes "https://b")).headers
      ≡ some csv)
    × (lookup allow_origin
          (cors_middleware strings csv
            (λ hs. valuation (handlers (pos 2)) hs (codes "P1"))
            (codes "GET")
            (codes "https://b")).headers
        ≡ some csv)
    × (lookup allow_origin
          (cors_middleware strings csv
            (λ hs. audit (handlers (pos 2)) hs (codes "P1"))
            (codes "GET")
            (codes "https://b")).headers
        ≡ some csv)
cors_middleware_example =
    cors_middleware_overwritten strings csv (codes "GET") (codes "https://b") (codes "P1")
      (handlers (pos 2)) (λ e. cc)
