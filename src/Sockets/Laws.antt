-- ===== src/Sockets/Laws.antt =====
-- ConnectionManager of services/api/routes/websocket.py: who gets a broadcast, and what is left of
-- the connections.
use matchmaker_platform.Prelude.{
  ℕ, ◌≡◌, refl, ◌⊎◌, Bool, true, false, not, ◌&&◌, ◌||◌, Option, none, some, List, [], ◌∷◌, ◌==◌,
  arith, if◌then◌else◌, inl, inr,
}
use matchmaker_platform.Sockets.{
  Link, connected, failing, closed, Message, ConnectionManager, connections_of, store, remove_key,
  in_set, add, discard, set_of, connect, drop_connection, disconnect, deliver, disconnect_all,
  address, broadcast_set, broadcast_to_party,
}

connections_of-store :
    (j k : ℕ) (s : List ℕ) (d : List (ℕ × List ℕ))
    → connections_of j (store k s d) ≡ (if k == j then some s else connections_of j d)
unfolding connections_of store
connections_of-store j k s [] = refl
connections_of-store j k s (x ∷ d) = ground (arith, connections_of-store j k s d)

connections_of-remove :
    (j k : ℕ) (d : List (ℕ × List ℕ))
    → connections_of j (remove_key k d) ≡ (if k == j then none else connections_of j d)
unfolding connections_of remove_key
connections_of-remove j k [] = ground arith
connections_of-remove j k (x ∷ d) = ground (arith, connections_of-remove j k d)

in_set-discard :
    (x y : ℕ) (s : List ℕ) → in_set x (discard y s) ≡ (if y == x then false else in_set x s)
unfolding in_set discard
in_set-discard x y [] = ground arith
in_set-discard x y (z ∷ s) = ground (arith, in_set-discard x y s)

in_set-add : (x y : ℕ) (s : List ℕ) → in_set x (add y s) ≡ (if y == x then true else in_set x s)
unfolding in_set add
in_set-add x y [] = ground arith
in_set-add x y (z ∷ s) = ground arith

discard_none : (x : ℕ) → discard x [] ≡ []
unfolding discard
discard_none x = refl

-- The connections of a party: none, where it has no key.
abbrev pub members : ℕ → ConnectionManager → List ℕ
members k c = set_of (connections_of k c.party_connections)

List-cases : (xs : List ℕ) → (xs ≡ []) ⊎ ((y : ℕ) × (ys : List ℕ) × (xs ≡ y ∷ ys))
List-cases [] = inl refl
List-cases (y ∷ ys) = inr (y, ys, refl)

drop_connection-members :
    (j x k : ℕ) (o : Option (List ℕ)) (d : List (ℕ × List ℕ))
    → connections_of k d ≡ o
    → set_of (connections_of j (drop_connection x k o d))
      ≡ (if k == j then discard x (set_of (connections_of j d)) else set_of (connections_of j d))
unfolding drop_connection
drop_connection-members j x k none d e = ground (arith, discard_none x)
drop_connection-members j x k (some s) d e = elim (List-cases (discard x s)) [
  | inl gone ↦ rw (gone, drop_connection) (ground (arith, connections_of-remove j k d))
  | inr (y, rest, left) ↦
      rw (left, drop_connection) (ground (arith, connections_of-store j k (y ∷ rest) d))
]

members-disconnect :
    (j x k : ℕ) (c : ConnectionManager)
    → members j (disconnect x k c) ≡ (if k == j then discard x (members j c) else members j c)
unfolding disconnect
members-disconnect j x k c =
    drop_connection-members j x k (connections_of k c.party_connections) c.party_connections refl

abbrev pub is_connected : Link → Bool
is_connected connected = true
is_connected failing = false
is_connected closed = false

module _ (link : ℕ → Link) where
  deliver-live :
      (x : ℕ) (s : List ℕ) → in_set x (deliver link s).0 ≡ (in_set x s && is_connected (link x))
  unfolding deliver in_set
  deliver-live x [] = refl
  deliver-live x (y ∷ s) = ground (arith, deliver-live x s)

  deliver-dead :
      (x : ℕ) (s : List ℕ)
      → in_set x (deliver link s).1 ≡ (in_set x s && not (is_connected (link x)))
  unfolding deliver in_set
  deliver-dead x [] = refl
  deliver-dead x (y ∷ s) = ground (arith, deliver-dead x s)

in_set-disconnect_all :
    (x j k : ℕ) (dead : List ℕ) (c : ConnectionManager)
    → in_set x (members j (disconnect_all dead k c))
      ≡ (in_set x (members j c) && not ((k == j) && in_set x dead))
unfolding disconnect_all in_set
in_set-disconnect_all x j k [] c = ground arith
in_set-disconnect_all x j k (y ∷ ys) c = ground (
  arith,
  in_set-disconnect_all x j k ys (disconnect y k c),
  members-disconnect j y k c,
  in_set-discard x y (members j c),
)

-- The connections that were sent something.
abbrev pub receivers : List (ℕ × Message) → List ℕ
receivers [] = []
receivers ((x, m) ∷ sent) = x ∷ receivers sent

receivers-address : (m : Message) (xs : List ℕ) → receivers (address m xs) ≡ xs
receivers-address m [] = refl
receivers-address m (x ∷ xs) = rw (receivers-address m xs) refl

-- What a broadcast to party `k` does, seen from connection `x` and party `j`.
abbrev pub Reaches :
    (ℕ → Link) → ℕ → ConnectionManager → ℕ → ℕ → ConnectionManager × List (ℕ × Message) → Type 0
Reaches link k c x j r =
    (in_set x (receivers r.1) ≡ (in_set x (members k c) && is_connected (link x)))
    × (in_set x (members j r.0)
        ≡ (in_set x (members j c) && not ((k == j) && not (is_connected (link x)))))

broadcast_set-Reaches :
    (link : ℕ → Link) (k : ℕ) (m : Message) (c : ConnectionManager) (x j : ℕ) (o : Option (List ℕ))
    → connections_of k c.party_connections ≡ o
    → Reaches link k c x j (broadcast_set link k m o c)
unfolding in_set
broadcast_set-Reaches link k m c x j none e = (in_empty, ground (arith, in_empty))
  where
    in_empty : false ≡ (in_set x (members k c) && is_connected (link x))
    in_empty = rw (e, in_set) refl
broadcast_set-Reaches link k m c x j (some s) e = (
  rw (receivers-address m (deliver link s).0, deliver-live link x s, e) refl,
  ground (arith, in_set-disconnect_all x j k (deliver link s).1 c, deliver-dead link x s),
)

-- A broadcast to a party is sent to exactly those of its connections that are up, and afterwards
-- exactly the others are gone from the party, while no other party loses a connection.
pub broadcast_to_party-Reaches :
    (link : ℕ → Link) (k : ℕ) (m : Message) (c : ConnectionManager) (x j : ℕ)
    → Reaches link k c x j (broadcast_to_party link k m c)
unfolding broadcast_to_party
broadcast_to_party-Reaches link k m c x j =
    broadcast_set-Reaches link k m c x j (connections_of k c.party_connections) refl

-- A connection belongs to a party after `connect` exactly if it is the one that connects to it or
-- belonged before, and after `disconnect` exactly if it belonged before and is not the one that
-- leaves it.
pub connect_iff-disconnect_iff :
    (x j websocket party_id player_id : ℕ) (c : ConnectionManager)
    → (in_set x (members j (connect websocket party_id player_id c))
        ≡ (((party_id == j) && (websocket == x)) || in_set x (members j c)))
      × (in_set x (members j (disconnect websocket party_id c))
          ≡ (not ((party_id == j) && (websocket == x)) && in_set x (members j c)))
unfolding connect
connect_iff-disconnect_iff x j websocket party_id player_id c = (
  ground (
    arith,
    connections_of-store j party_id (add websocket (members party_id c)) c.party_connections,
    in_set-add x websocket (members party_id c),
  ),
  ground
      (arith, members-disconnect j websocket party_id c, in_set-discard x websocket (members j c)),
)
