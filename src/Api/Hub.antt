-- ===== src/Api/Hub.antt =====
-- api/websocket.go: the hub. A connection is a number, and whether a send to it succeeds is a
-- parameter. The set of a property is a list without repetition.
pub mod Laws
use twinval_go_backend.Prelude.{
  ℕ, Bool, true, false, not, ◌||◌, Option, none, some, List, [], ◌∷◌, ◌++◌, length, keep,
  if◌then◌else◌, ◌==◌,
}
use twinval_go_backend.Prelude.Int.{ℤ}
use twinval_go_backend.Prelude.Text.{Text, text_eq}
use twinval_go_backend.Prelude.Maps.{lookup, insert, erase}
use twinval_go_backend.Compute.Types.{TechnicalIndicators}
use twinval_go_backend.Exchange.Types.{ExchangeParams}
use twinval_go_backend.Sync.Types.{DigitalTwinState}

-- `map[string]map[*websocket.Conn]struct{}`.
abbrev pub Hub : Type 0
Hub = List (Text × List ℕ)

pub record WsMessage (W : Type 0) : Type 0 where
  pub property_id : Text
  pub timestamp : ℤ
  pub indicators : TechnicalIndicators W
  pub health_factor : W
  pub rtpmv : W
  pub currency : Text
  pub state : DigitalTwinState W
  pub exchange : ExchangeParams W

abbrev new_hub : Hub
new_hub = []

-- `h.conns[propertyID]`: a missing key reads as the nil map.
abbrev pub conns_of : Text → Hub → List ℕ
conns_of property_id h = elim (lookup property_id h) [ none ↦ [] | some set ↦ set ]

abbrev pub has_conn : ℕ → List ℕ → Bool
has_conn c [] = false
has_conn c (x ∷ xs) = (c == x) || has_conn c xs

-- `set[conn] = struct{}{}`.
abbrev pub with_conn : ℕ → List ℕ → List ℕ
with_conn c set = if has_conn c set then set else set ++ (c ∷ [])

-- `delete(set, conn)`.
abbrev pub without_conn : ℕ → List ℕ → List ℕ
without_conn c set = keep (λ x. not (x == c)) set

unfoldable pub register : Text → ℕ → Hub → Hub
register property_id conn h = insert property_id (with_conn conn (conns_of property_id h)) h

-- The set after a delete, whose entry goes with its last connection.
unfoldable pub put_set : Text → List ℕ → Hub → Hub
put_set property_id [] h = erase property_id h
put_set property_id (c ∷ cs) h = insert property_id (c ∷ cs) h

unfoldable pub unregister : Text → ℕ → Hub → Hub
unfolding put_set
unregister property_id conn h = elim (lookup property_id h) [
  | none ↦ h
  | some set ↦ put_set property_id (without_conn conn set) h
]

-- The loop over the connections, and those that it closes.
unfoldable pub send_each : (ℕ → Bool) → Text → Hub → List ℕ → Hub × List ℕ
unfolding unregister
send_each send property_id h [] = (h, [])
send_each send property_id h (c ∷ cs) =
    let kept = send_each send property_id h cs in
    let (h', closed) = send_each send property_id (unregister property_id c h) cs in
    if send c then kept else (h', c ∷ closed)

-- BroadcastJSON, where no other call comes between its sections: the hub, and what it closes.
unfoldable pub broadcast_json : {A : Type 0} → (ℕ → A → Bool) → Text → A → Hub → Hub × List ℕ
unfolding send_each
broadcast_json send property_id payload h =
    send_each (λ c. send c payload) property_id h (conns_of property_id h)

unfoldable subscriber_count : Text → Hub → ℕ
subscriber_count property_id h = length (conns_of property_id h)

-- WebSocketHandler up to its loop of reads, and what it defers. The id is the path's.
unfoldable open_web_socket : Text → ℕ → Hub → Hub
unfolding register
open_web_socket id conn h = if text_eq id [] then h else register id conn h

unfoldable pub close_web_socket : Text → ℕ → Hub → Hub
unfolding unregister
close_web_socket id conn h = if text_eq id [] then h else unregister id conn h
