-- ===== src/Server/Cors.antt =====
-- cmd/api/main.go: corsMiddleware. strings.Split at "," and strings.TrimSpace are parameters.
pub mod Laws
use twinval_go_backend.Prelude.{Bool, not, List, [], ◌∷◌, if◌then◌else◌}
use twinval_go_backend.Prelude.Text.{Text, codes, text_eq}
use twinval_go_backend.Prelude.Maps.{insert}
use twinval_go_backend.Api.Handlers.{Headers, Response, empty, allow_origin}

pub record Strings : Type 0 where
  pub split : Text → List Text
  pub trim_space : Text → Text

-- The loop over the parts.
unfoldable trimmed : (Text → Text) → List Text → List Text
trimmed trim_space [] = []
trimmed trim_space (p ∷ ps) =
    let rest = trimmed trim_space ps in
    if text_eq (trim_space p) [] then rest else trim_space p ∷ rest

unfoldable pub parse_origins : Strings → Text → List Text
unfolding trimmed
parse_origins lib csv = trimmed lib.trim_space (lib.split csv)

abbrev pub wildcard : Text
wildcard = codes "*"

unfoldable pub match_origin : List Text → Text → Text
match_origin [] req_origin = []
match_origin (a ∷ allowed) req_origin =
    let rest = match_origin allowed req_origin in
    if text_eq a wildcard then wildcard else if text_eq a req_origin then req_origin else rest

-- The headers that the middleware sets before the next handler.
unfoldable pub cors_headers : List Text → Text → Headers
unfolding match_origin
cors_headers allowed req_origin =
    let origin = match_origin allowed req_origin in
    if text_eq origin []
    then []
    else insert (codes "Access-Control-Allow-Headers") (codes "Content-Type") (
        insert (codes "Access-Control-Allow-Methods") (codes "GET, POST, OPTIONS")
          (insert (codes "Vary") (codes "Origin") (insert allow_origin origin [])))

unfoldable pub cors_middleware :
    {A : Type 0} → Strings → Text → (Headers → Response A) → Text → Text → Response A
unfolding parse_origins cors_headers
cors_middleware lib origins_csv next method req_origin =
    let hs = cors_headers (parse_origins lib origins_csv) req_origin in
    if text_eq method (codes "OPTIONS")
    then record { headers = hs; status = 204; body = empty }
    else next hs
