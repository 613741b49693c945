-- ===== src/Sockets.antt =====
-- The WebSocket side of party updates: `ConnectionManager` of services/api/routes/websocket.py.
-- The `websocket` objects of FastAPI are numbers; what becomes of a send is said by `Link`.
pub mod Laws
use matchmaker_platform.Prelude.{
  ℕ, ◌≡◌, Bool, true, false, not, ◌&&◌, ◌||◌, Option, none, some, List, [], ◌∷◌, ◌++◌, String, ◌==◌,
  if◌then◌else◌,
}
use matchmaker_platform.Prelude.Int.{ℤ}

-- What the peer of a connection does: `client_state == CONNECTED` and the send works, the send
-- raises, or the state is another one.
pub data Link : Type 0 where
  connected failing closed : Link

-- The `event` and `data` of a message; `connection_made` is the event "connected".
pub data Message : Type 0 where
  member_joined member_left : ℕ → ℕ → String → Message
  member_ready : ℕ → ℕ → String → Bool → Message
  queue_entered : ℕ → String → ℕ → Message
  queue_left : ℕ → Message
  match_found : ℕ → List ℕ → List ℕ → String → String → List (List ℕ) → Message
  connection_made : ℕ → ℕ → Message
  pong : Message

pub record ConnectionManager : Type 0 where
  pub party_connections : List (ℕ × List ℕ)
  pub connection_players : List (ℕ × ℕ)

-- party_id in self.party_connections, and self.party_connections[party_id]
unfoldable pub connections_of : ℕ → List (ℕ × List ℕ) → Option (List ℕ)
connections_of k [] = none
connections_of k ((j, s) ∷ d) = if j == k then some s else connections_of k d

-- d[k] = v, on a dict whose keys are distinct
unfoldable pub store {ℓ} : {A : Type ℓ} → ℕ → A → List (ℕ × A) → List (ℕ × A)
store k v [] = (k, v) ∷ []
store k v ((j, w) ∷ d) = let rest = store k v d in if j == k then (k, v) ∷ d else (j, w) ∷ rest

-- del d[k], and d.pop(k, default) as far as the dict goes
unfoldable pub remove_key {ℓ} : {A : Type ℓ} → ℕ → List (ℕ × A) → List (ℕ × A)
remove_key k [] = []
remove_key k ((j, w) ∷ d) = let rest = remove_key k d in if j == k then rest else (j, w) ∷ rest

unfoldable pub in_set : ℕ → List ℕ → Bool
in_set x [] = false
in_set x (y ∷ s) = y == x || in_set x s

-- set.add
unfoldable pub add : ℕ → List ℕ → List ℕ
unfolding in_set
add x s = if in_set x s then s else x ∷ s

-- set.discard
unfoldable pub discard : ℕ → List ℕ → List ℕ
discard x [] = []
discard x (y ∷ s) = let rest = discard x s in if y == x then rest else y ∷ rest

abbrev pub set_of : Option (List ℕ) → List ℕ
set_of none = []
set_of (some s) = s

unfoldable pub connect : ℕ → ℕ → ℕ → ConnectionManager → ConnectionManager
unfolding add store connections_of
connect websocket party_id player_id c = record {
  party_connections =
      store party_id (add websocket (set_of (connections_of party_id c.party_connections)))
        c.party_connections;
  connection_players = store websocket player_id c.connection_players;
}

-- The set without the connection; an empty set is deleted with its key.
unfoldable pub drop_connection : ℕ → ℕ → Option (List ℕ) → List (ℕ × List ℕ) → List (ℕ × List ℕ)
unfolding discard store remove_key
drop_connection websocket party_id none d = d
drop_connection websocket party_id (some s) d = elim (discard websocket s) [
  | [] ↦ remove_key party_id d
  | x ∷ rest ↦ store party_id (x ∷ rest) d
]

unfoldable pub disconnect : ℕ → ℕ → ConnectionManager → ConnectionManager
unfolding drop_connection connections_of remove_key
disconnect websocket party_id c = record {
  party_connections =
      drop_connection websocket party_id (connections_of party_id c.party_connections)
        c.party_connections;
  connection_players = remove_key websocket c.connection_players;
}

-- The loop over the set: who gets the message, and `dead_connections`.
unfoldable pub deliver : (ℕ → Link) → List ℕ → List ℕ × List ℕ
deliver link [] = ([], [])
deliver link (x ∷ s) =
    let rest = deliver link s in
    elim (link x) [ Link.connected ↦ (x ∷ rest.0, rest.1) | _ ↦ (rest.0, x ∷ rest.1) ]

unfoldable pub disconnect_all : List ℕ → ℕ → ConnectionManager → ConnectionManager
unfolding disconnect
disconnect_all [] party_id c = c
disconnect_all (x ∷ xs) party_id c = disconnect_all xs party_id (disconnect x party_id c)

abbrev pub address : Message → List ℕ → List (ℕ × Message)
address m [] = []
address m (x ∷ xs) = (x, m) ∷ address m xs

abbrev pub broadcast_set :
    (ℕ → Link)
    → ℕ
    → Message
    → Option (List ℕ)
    → ConnectionManager
    → ConnectionManager × List (ℕ × Message)
broadcast_set link party_id m none c = (c, [])
broadcast_set link party_id m (some s) c =
    let (live, dead) = deliver link s in (disconnect_all dead party_id c, address m live)

-- The manager afterwards, and the messages that were sent, where no other task connects or disconnects
-- while a send is awaited: the loop runs over the set itself, which then raises a RuntimeError. No
-- caller gives `exclude`.
unfoldable pub broadcast_to_party :
    (ℕ → Link) → ℕ → Message → ConnectionManager → ConnectionManager × List (ℕ × Message)
unfolding deliver disconnect_all connections_of
broadcast_to_party link party_id m c =
    broadcast_set link party_id m (connections_of party_id c.party_connections) c
