-- ===== src/Party/Answers.antt =====
-- What join_party (services/api/routes/party.py) answers while nothing fails.
use matchmaker_platform.Prelude.{
  ◌≡◌, refl, Option, none, some, true, false, is_some, leb, if◌then◌else◌, inl, inr, Bool-cases,
  Option-cases, List, [], ◌∷◌, ◌++◌, ℕ, ◌+◌, arith,
}
use matchmaker_platform.Schema.{Database, Player, Party, PartyMember}
use matchmaker_platform.Tables.{
  find_party, find_player, party_of, is_member, members_of, update_party,
}
use matchmaker_platform.Tables.Parties.{find_party-update_self}
use matchmaker_platform.Redis.{RedisServer, PartyData}
use matchmaker_platform.Api.{
  World, handler, broadcast, fetch, transaction, actions, http, Outcome, ok, raise,
}
use matchmaker_platform.Cache.{invalidate_party_cache, track_player_session, dumps, cache_party}
use matchmaker_platform.Party.{
  open_to_join, cannot_join, resize, new_member, insert_member, set_party,
}
use matchmaker_platform.Party.Membership.{
  get_party_with_members, join_rows, lock, join_party, membership,
}

-- The party as the player has joined it.
abbrev pub joined_data : ℕ → Player → ℕ → Database → Party → PartyData
joined_data k user now db p = record {
  party = resize (λ n. n + 1) now p;
  members = members_of k db.players (db.party_members ++ new_member k user.id now false ∷ []);
}

-- The first reason against the join, in this order, or the party with its new member.
abbrev pub answer_of : ℕ → Player → ℕ → Database → Option Party → Outcome PartyData
answer_of k user now db none = raise (http 404 "Party not found")
answer_of k user now db (some p) =
    if leb p.max_size p.size
    then raise (http 400 "Party is full")
    else if open_to_join p.status
    then ok (joined_data k user now db p)
    else raise (http 400 (cannot_join p.status))

abbrev pub join_answer : ℕ → Player → ℕ → Database → Outcome PartyData
join_answer k user now db =
    if is_some (party_of user.id db.party_members)
    then raise (http 400 "Player is already in a party")
    else answer_of k user now db (find_party k db.parties)

not_in_any : (k q : ℕ) (ms : List PartyMember) → party_of q ms ≡ none → is_member k q ms ≡ false
unfolding party_of is_member
not_in_any k q [] h = refl
not_in_any k q (m ∷ ms) h = ground (arith, not_in_any k q ms)

module _ (server : RedisServer) (k : ℕ) (user : Player) (w : World server.State)
    (calm : w.faults ≡ []) where
  taken :
      (j : ℕ)
      → party_of user.id w.db.party_members ≡ some j
      → (join_party server k user w).0 ≡ raise (http 400 "Player is already in a party")
  unfolding membership
  taken j h = rw (calm, h) refl

  missing :
      party_of user.id w.db.party_members ≡ none
      → find_party k w.db.parties ≡ none
      → (join_party server k user w).0 ≡ raise (http 404 "Party not found")
  unfolding membership
  missing free h = rw (calm, free, h) refl

  full :
      (p : Party)
      → party_of user.id w.db.party_members ≡ none
      → find_party k w.db.parties ≡ some p
      → leb p.max_size p.size ≡ true
      → (join_party server k user w).0 ≡ raise (http 400 "Party is full")
  unfolding membership
  full p free h f = rw (calm, free, h, f) refl

  shut :
      (p : Party)
      → party_of user.id w.db.party_members ≡ none
      → find_party k w.db.parties ≡ some p
      → leb p.max_size p.size ≡ false
      → open_to_join p.status ≡ false
      → (join_party server k user w).0 ≡ raise (http 400 (cannot_join p.status))
  unfolding membership
  shut p free h f s = rw (calm, free, h, f, s) refl

  abbrev with_member : Database
  with_member = record w.db {
    party_members = w.db.party_members ++ new_member k user.id w.now false ∷ [];
  }

  inserted :
      (p : Party)
      → party_of user.id w.db.party_members ≡ none
      → find_party k w.db.parties ≡ some p
      → is_some (find_player user.id w.db.players) ≡ true
      → insert_member (new_member k user.id w.now false) w.db ≡ some with_member
  unfolding insert_member
  inserted p free h there = rw (not_in_any k user.id w.db.party_members free, h, there) refl

  abbrev joined_world : World server.State
  joined_world = record w { db = set_party k (resize (λ n. n + 1) w.now) with_member; faults = [] }

  rows :
      (p : Party)
      → party_of user.id w.db.party_members ≡ none
      → find_party k w.db.parties ≡ some p
      → leb p.max_size p.size ≡ false
      → open_to_join p.status ≡ true
      → is_some (find_player user.id w.db.players) ≡ true
      → transaction (join_rows k user) w ≡ (ok tt, joined_world)
  unfolding actions join_rows lock
  rows p free h f s there = rw (calm, free, h, f, s, inserted p free h there) refl

  -- The row of the party after the update.
  updated :
      (p : Party)
      → find_party k w.db.parties ≡ some p
      → find_party k (update_party k (resize (λ n. n + 1) w.now) w.db.parties)
        ≡ some (resize (λ n. n + 1) w.now p)
  updated p h =
      rw (find_party-update_self k (resize (λ n. n + 1) w.now) w.db.parties (λ x. refl), h) refl

  joined :
      (p : Party)
      → party_of user.id w.db.party_members ≡ none
      → find_party k w.db.parties ≡ some p
      → leb p.max_size p.size ≡ false
      → open_to_join p.status ≡ true
      → is_some (find_player user.id w.db.players) ≡ true
      → (join_party server k user w).0 ≡ ok (joined_data k user w.now w.db p)
  unfolding join_party handler broadcast fetch get_party_with_members invalidate_party_cache
      track_player_session cache_party
  joined p free h f s there =
      let dumped = Option-cases (dumps (joined_data k user w.now w.db p)) in
      elim (Option-cases w.redis) [
        | inl off ↦ elim dumped [
          | inl unfit ↦ rw (rows p free h f s there, off, updated p h, unfit) refl
          | inr (json, e) ↦ rw (rows p free h f s there, off, updated p h, e) refl
        ]
        | inr (r, on) ↦ elim dumped [
          | inl unfit ↦ rw (rows p free h f s there, on, updated p h, unfit) refl
          | inr (json, e) ↦ rw (rows p free h f s there, on, updated p h, e) refl
        ]
      ]

  open_or_shut :
      (p : Party)
      → party_of user.id w.db.party_members ≡ none
      → find_party k w.db.parties ≡ some p
      → is_some (find_player user.id w.db.players) ≡ true
      → (join_party server k user w).0 ≡ answer_of k user w.now w.db (some p)
  open_or_shut p free h there = elim (Bool-cases (leb p.max_size p.size)) [
    | inl f ↦ rw f (full p free h f)
    | inr f ↦ elim (Bool-cases (open_to_join p.status)) [
      | inl s ↦ rw (f, s) (joined p free h f s there)
      | inr s ↦ rw (f, s) (shut p free h f s)
    ]
  ]

  -- While no statement or command fails, a request of a player who has an account to join a party is
  -- answered as the tables say, whether Redis is there or not: 400 for a player in a party, 404 for an
  -- unknown party, 400 for a full one and for one that is not open, in this order, and else the party
  -- with its new size and its members, the player among them.
  pub join_party-answer :
      is_some (find_player user.id w.db.players) ≡ true
      → (join_party server k user w).0 ≡ join_answer k user w.now w.db
  join_party-answer there = elim (Option-cases (party_of user.id w.db.party_members)) [
    | inr (j, h) ↦ rw h (taken j h)
    | inl free ↦ elim (Option-cases (find_party k w.db.parties)) [
      | inl h ↦ rw (free, h) (missing free h)
      | inr (p, h) ↦ rw (free, h) (open_or_shut p free h there)
    ]
  ]
