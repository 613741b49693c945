-- ===== src/MatchConsumer.antt =====
-- services/api/consumers/match_consumer.py: `handle_match_found`, which turns a match.found event
-- of the matchmaker into a running session. The ids of the event are UUIDs, as numbers.
pub mod Opening
pub mod Atomicity
pub mod Enrolling
pub mod Progress
use matchmaker_platform.Prelude.{
  ℕ, ◌+◌, String, Bool, true, false, not, Option, none, some, List, [], ◌∷◌, ◌++◌, is_some,
}
use matchmaker_platform.Prelude.Int.{ℤ}
use matchmaker_platform.Text.{Text}
use matchmaker_platform.Schema.{
  Database, Match, MatchPlayer, Metadata, allocating, active, in_match,
}
use matchmaker_platform.Tables.{find_player}
use matchmaker_platform.MatchTables.{insert_match, update_match, insert_match_player}
use matchmaker_platform.SessionManager.{allocate_server, generate_session_token}
use matchmaker_platform.Sockets.{Message, match_found}
use matchmaker_platform.Party.{set_party, set_status}
use matchmaker_platform.Api.{
  World, Action, Outcome, ok, raise, value_error, exception, pure, gets, or_fail, fail_if, ◌>>=◌,
  ◌>>◌, fetch, execute, insert, transaction, broadcast, actions,
}

-- The message, by its keys; `none` is a missing one. An empty match id counts as missing.
pub record MatchFound : Type 0 where
  pub match_id : Option ℕ
  pub region : Option String
  pub mode : Option String
  pub teams : List (List ℕ)
  pub party_ids : List ℕ
  pub avg_mmr : Option ℤ
  pub quality_score : Option ℕ

-- [player_id for team in teams for player_id in team]
unfoldable pub all_player_ids : List (List ℕ) → List ℕ
all_player_ids [] = []
all_player_ids (t ∷ ts) = t ++ all_player_ids ts

abbrev pub allocating_match : ℕ → MatchFound → String → String → ℕ → Match
allocating_match match_id message mode region now = record {
  id = match_id;
  created_at = now;
  started_at = none;
  ended_at = none;
  mode = mode;
  region = region;
  mmr_avg = message.avg_mmr;
  server_endpoint = none;
  server_token = none;
  status = allocating;
  result = none;
  metadata = record {
    quality_score = message.quality_score;
    party_ids = message.party_ids;
    teams = message.teams;
  };
}

-- Step 1: the columns mode and region are NOT NULL.
unfoldable pub insert_found :
    ℕ → MatchFound → Option String → Option String → ℕ → Database → Option Database
insert_found match_id message none region now db = none
insert_found match_id message (some mode) none now db = none
insert_found match_id message (some mode) (some region) now db =
    insert_match (allocating_match match_id message mode region now) db

abbrev pub new_match_player : ℕ → ℕ → ℕ → ℤ → MatchPlayer
new_match_player match_id player_id team mmr = record {
  match_id = match_id;
  player_id = player_id;
  team = team;
  mmr_before = mmr;
  mmr_after = none;
  result = none;
  stats = "{}";
}

-- SET server_endpoint = $1, server_token = $2, status = $3, started_at = $4
abbrev pub activate : Text → Text → ℕ → Match → Match
activate endpoint token now m = record m {
  server_endpoint = some endpoint;
  server_token = some token;
  status = active;
  started_at = some now;
}

-- A value in an f-string
abbrev pub shown : Option String → String
shown none = "None"
shown (some s) = s

module _ {S : Type 0} where
  -- Step 2 for one player: the current rating, and the row.
  unfoldable pub enroll_player : ℕ → ℕ → ℕ → Action S (Unit {0})
  enroll_player match_id team_idx player_id = do
    found ← fetch (λ db. find_player player_id db.players)
    player ← or_fail found (value_error "Player not found")
    insert (λ w. insert_match_player (new_match_player match_id player_id team_idx player.mmr) w.db)

  unfoldable pub enroll_team : ℕ → ℕ → List ℕ → Action S (Unit {0})
  enroll_team match_id team_idx [] = pure tt
  enroll_team match_id team_idx (q ∷ qs) =
      enroll_player match_id team_idx q >> enroll_team match_id team_idx qs

  -- for team_idx, team in enumerate(teams), from `team_idx` on
  unfoldable pub enroll_teams : ℕ → ℕ → List (List ℕ) → Action S (Unit {0})
  enroll_teams match_id team_idx [] = pure tt
  enroll_teams match_id team_idx (t ∷ ts) =
      enroll_team match_id team_idx t >> enroll_teams match_id (team_idx + 1) ts

  -- Step 3: `get_server_allocator()` raises without an allocator. The allocator lives outside the
  -- database: no rollback gives a port back.
  unfoldable pub allocate : ℕ → String → String → Action S Text
  allocate match_id region mode w = elim w.allocator [
    | none ↦ (raise exception, w)
    | some a ↦
        let (b, endpoint) = allocate_server match_id region mode a in
        (ok endpoint, record w { allocator = some b })
  ]

  -- Step 6
  unfoldable pub parties_in_match : List ℕ → Action S (Unit {0})
  parties_in_match [] = pure tt
  parties_in_match (k ∷ ks) =
      execute (λ w. set_party k (set_status in_match w.now) w.db) >> parties_in_match ks

  -- broadcast_match_found_to_parties
  unfoldable pub broadcast_match_found_to_parties : List ℕ → Message → Action S (Unit {0})
  broadcast_match_found_to_parties [] m = pure tt
  broadcast_match_found_to_parties (k ∷ ks) m =
      broadcast k m >> broadcast_match_found_to_parties ks m

  -- try: ... except Exception: log
  unfoldable pub swallow : {A : Type 0} → Action S A → Action S (Unit {0})
  swallow m w = (ok tt, (m w).1)

  module _ (hmac : Text → Text → Text) (id_text : ℕ → Text) where
    -- The body of the transaction: the endpoint and the token of the session.
    unfoldable pub session_rows : ℕ → MatchFound → Action S (Text × Text)
    session_rows match_id message = do
      insert (λ w. insert_found match_id message message.mode message.region w.now w.db)
      enroll_teams match_id 0 message.teams
      endpoint ← allocate match_id (shown message.region) (shown message.mode)
      made ← gets (λ w.
          generate_session_token hmac id_text w.session_secret match_id
            (all_player_ids message.teams))
      token ← or_fail made exception
      execute (λ w. record w.db {
        matches = update_match match_id (activate endpoint token w.now) w.db.matches;
      })
      parties_in_match message.party_ids
      pure (endpoint, token)

    -- A message with a match id and teams. Formatting a missing quality score raises.
    unfoldable pub create_session : ℕ → MatchFound → Action S (Unit {0})
    create_session match_id message = do
      fail_if (not (is_some message.quality_score)) exception
      (endpoint, token) ← transaction (session_rows match_id message)
      broadcast_match_found_to_parties message.party_ids (
          match_found match_id endpoint token (shown message.region) (shown message.mode)
            message.teams)

    unfoldable pub handle_valid : Option ℕ → List (List ℕ) → MatchFound → Action S (Unit {0})
    handle_valid none teams message = pure tt
    handle_valid (some match_id) [] message = pure tt
    handle_valid (some match_id) (t ∷ ts) message = swallow (create_session match_id message)

    unfoldable pub handle_match_found : MatchFound → Action S (Unit {0})
    handle_match_found message = handle_valid message.match_id message.teams message

-- Opens the consumer and the actions that it is made of.
unfoldable pub consumer : Unit {0}
unfolding actions enroll_player enroll_team enroll_teams allocate parties_in_match
    broadcast_match_found_to_parties swallow session_rows create_session handle_valid
    handle_match_found insert_found all_player_ids
consumer = tt
