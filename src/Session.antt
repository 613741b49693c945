-- ===== src/Session.antt =====
-- services/api/routes/session.py: get_session, session_heartbeat and submit_match_result.
-- asyncpg hands a JSONB column out as text unless a codec is set on the connection;
-- `jsonb_as_object` says whether one is. The pool of utils/database.py sets none.
pub mod Opponents
pub mod Statements
pub mod Accepting
pub mod Once
pub mod Safety
use matchmaker_platform.Prelude.{
  ℕ, ◌+◌, ◌-◌, String, Bool, true, false, not, ◌&&◌, Option, none, some, List, [], ◌∷◌, ◌++◌,
  is_some, leb, ltb, ◌==◌, if◌then◌else◌, length, get_elem?,
}
use matchmaker_platform.Prelude.Int.{ℤ, pos, ◌+ℤ◌}
use matchmaker_platform.Text.{Text}
use matchmaker_platform.Schema.{
  Database, Player, Match, MatchPlayer, MatchResult, win, loss, Metadata, SessionStatus, allocating,
  active, ended, cancelled, idle,
}
use matchmaker_platform.Tables.{find_player}
use matchmaker_platform.MatchTables.{
  find_match, update_match, find_match_player, update_match_player, team_mmrs, set_mmr,
  upsert_leaderboard, add_history,
}
use matchmaker_platform.MmrCalculator.{
  Floats, default_k_factor, calculate_mmr_change, team_average, get_season_id,
}
use matchmaker_platform.SessionManager.{can_transition, deallocate_server}
use matchmaker_platform.Redis.{RedisServer}
use matchmaker_platform.HeartbeatTracker.{track_heartbeat, clear_heartbeat}
use matchmaker_platform.Party.{set_party, set_status}
use matchmaker_platform.Api.{
  World, Action, Outcome, ok, raise, http, value_error, exception, pure, gets, or_fail, fail_if,
  ◌>>=◌, ◌>>◌, fetch, execute, insert, handler, actions,
}

-- MatchResultRequest: `player_stats` gives the JSON text of the stats of a player, and
-- `metadata` is the JSON text of an object, if there is one. The `match_id` is not read.
pub record MatchResultRequest : Type 0 where
  pub winner_team : ℕ
  pub duration_seconds : ℕ
  pub player_stats : ℕ → Option String
  pub metadata : Option String

-- HeartbeatRequest
pub record HeartbeatRequest : Type 0 where
  pub server_id : Text
  pub active_players : ℕ

-- SessionResponse
pub record SessionResponse : Type 0 where
  pub match_id : ℕ
  pub status : SessionStatus
  pub server_endpoint : Option Text
  pub server_token : Option Text
  pub created_at : ℕ
  pub started_at : Option ℕ
  pub mode : String
  pub region : String
  pub teams : List (List ℕ)
  pub avg_mmr : Option ℤ

abbrev pub is_active : SessionStatus → Bool
is_active active = true
is_active _ = false

-- f"Match is not active (status: {match['status']})"
abbrev pub not_active : SessionStatus → String
not_active allocating = "Match is not active (status: allocating)"
not_active active = "Match is not active (status: active)"
not_active ended = "Match is not active (status: ended)"
not_active cancelled = "Match is not active (status: cancelled)"

-- The ValueError of `validate_transition(status, "ended")`
abbrev pub invalid_end : SessionStatus → String
invalid_end allocating = "Invalid session state transition: allocating -> ended"
invalid_end active = "Invalid session state transition: active -> ended"
invalid_end ended = "Invalid session state transition: ended -> ended"
invalid_end cancelled = "Invalid session state transition: cancelled -> ended"

-- request.metadata or {}
abbrev pub metadata_or_empty : Option String → String
metadata_or_empty none = "{}"
metadata_or_empty (some m) = m

-- SET status = $1, ended_at = $2, result = $3
abbrev pub end_match : MatchResultRequest → ℕ → Match → Match
end_match request now m = record m {
  status = ended;
  ended_at = some now;
  result = some (record {
    winner_team = request.winner_team;
    duration_seconds = request.duration_seconds;
    metadata = metadata_or_empty request.metadata;
  });
}

abbrev pub mode_of : Option Match → Option String
mode_of none = none
mode_of (some m) = some m.mode

-- SELECT mp.mmr_before, p.mmr ... JOIN game.player p ...: the rating before the match, the only
-- one of the two columns that is used.
unfoldable pub player_data : ℕ → ℕ → Database → Option ℤ
player_data match_id player_id db = elim (find_match_player match_id player_id db.match_players) [
  | none ↦ none
  | some m ↦ if is_some (find_player player_id db.players) then some m.mmr_before else none
]

-- team_avg_mmrs[1 - team_idx]: a negative index counts from the end.
unfoldable pub opponent_index : ℕ → ℕ → ℕ
opponent_index team_idx teams = if leb team_idx 1 then 1 - team_idx else teams + 1 - team_idx

unfoldable pub opponent_avg_mmr : ℕ → List ℤ → Option ℤ
unfolding opponent_index
opponent_avg_mmr team_idx team_avg_mmrs =
    if ltb 1 (length team_avg_mmrs)
    then get_elem? team_avg_mmrs (opponent_index team_idx (length team_avg_mmrs))
    else some (pos 1500)

abbrev pub result_type : ℕ → ℕ → MatchResult
result_type team_idx winner_team = if team_idx == winner_team then win else loss

-- json.dumps(request.player_stats.get(player_id, {}))
abbrev pub stats_text : Option String → String
stats_text none = "{}"
stats_text (some s) = s

-- SET result = $1, stats = $2, mmr_after = $3
abbrev pub record_result : MatchResult → String → ℤ → MatchPlayer → MatchPlayer
record_result r stats mmr m = record m { result = some r; stats = stats; mmr_after = some mmr }

-- INSERT INTO game.match_history: the mode is NOT NULL.
unfoldable pub history_row :
    ℕ → ℕ → Option String → MatchResult → ℤ → ℕ → String → ℕ → Database → Option Database
history_row match_id player_id none r change team_idx stats now db = none
history_row match_id player_id (some mode) r change team_idx stats now db = some (
    add_history
      (record {
        match_id = match_id;
        player_id = player_id;
        played_at = now;
        mode = mode;
        result = r;
        mmr_change = change;
        team = team_idx;
        stats = stats;
      })
      db)

-- except HTTPException: raise
-- except ValueError as e: raise HTTPException(400, str(e))
-- except Exception: raise HTTPException(500, detail)
abbrev pub value_errors_are_400 : {S A : Type 0} → Outcome A → World S → Outcome A × World S
value_errors_are_400 (raise (value_error d)) w = (raise (http 400 d), w)
value_errors_are_400 r w = (r, w)

unfoldable pub catch_value_error : {S A : Type 0} → Action S A → Action S A
catch_value_error m w = let (r, w') = m w in value_errors_are_400 r w'

module _ {S : Type 0} where
  -- match["metadata"] or {}, and `.get` on it, which a text does not have
  unfoldable pub read_metadata : Bool → Metadata → Action S Metadata
  read_metadata jsonb_as_object m = do fail_if (not jsonb_as_object) exception; pure m

  -- The loop that fills `team_avg_mmrs`
  unfoldable pub team_averages : Floats → ℕ → List (List ℕ) → Action S (List ℤ)
  team_averages fl match_id [] = pure []
  team_averages fl match_id (t ∷ ts) = do
    mmrs ← fetch (λ db. team_mmrs match_id t db.match_players)
    avg ← or_fail (team_average fl mmrs) exception
    rest ← team_averages fl match_id ts
    pure (avg ∷ rest)

  -- The loop body for one player: nothing without `player_data`.
  unfoldable pub submit_player_data :
      Floats
      → ℕ
      → MatchResultRequest
      → Text
      → Option String
      → ℕ
      → ℤ
      → ℕ
      → Option ℤ
      → Action S (Unit {0})
  submit_player_data fl match_id request season mode team_idx opponent player_id none = pure tt
  submit_player_data fl match_id request season mode team_idx opponent player_id (some before) = do
    mmr_change ←
        or_fail
          (calculate_mmr_change fl before opponent (result_type team_idx request.winner_team)
            default_k_factor)
          exception
    execute (λ w. record w.db {
      match_players =
          update_match_player match_id player_id
            (record_result (result_type team_idx request.winner_team)
              (stats_text (request.player_stats player_id)) (before +ℤ mmr_change))
            w.db.match_players;
    })
    execute (λ w. record w.db { players = set_mmr player_id (before +ℤ mmr_change) w.db.players })
    insert (λ w.
        history_row match_id player_id mode (result_type team_idx request.winner_team) mmr_change
          team_idx (stats_text (request.player_stats player_id)) w.now w.db)
    execute (λ w. record w.db {
      leaderboard =
          upsert_leaderboard season player_id (before +ℤ mmr_change)
            (result_type team_idx request.winner_team) w.db.leaderboard;
    })

  unfoldable pub submit_player :
      Floats → ℕ → MatchResultRequest → Text → Option String → ℕ → ℤ → ℕ → Action S (Unit {0})
  submit_player fl match_id request season mode team_idx opponent player_id = do
    found ← fetch (player_data match_id player_id)
    submit_player_data fl match_id request season mode team_idx opponent player_id found

  unfoldable pub submit_team :
      Floats → ℕ → MatchResultRequest → Text → Option String → ℕ → ℤ → List ℕ → Action S (Unit {0})
  submit_team fl match_id request season mode team_idx opponent [] = pure tt
  submit_team fl match_id request season mode team_idx opponent (q ∷ qs) =
      submit_player fl match_id request season mode team_idx opponent q
      >> submit_team fl match_id request season mode team_idx opponent qs

  -- for team_idx, team in enumerate(teams), from `team_idx` on
  unfoldable pub submit_teams :
      Floats
      → ℕ
      → MatchResultRequest
      → Text
      → Option String
      → List ℤ
      → ℕ
      → List (List ℕ)
      → Action S (Unit {0})
  submit_teams fl match_id request season mode avgs team_idx [] = pure tt
  submit_teams fl match_id request season mode avgs team_idx (t ∷ ts) = do
    opponent ← or_fail (opponent_avg_mmr team_idx avgs) exception
    submit_team fl match_id request season mode team_idx opponent t
    submit_teams fl match_id request season mode avgs (team_idx + 1) ts

  -- UPDATE game.party SET status = 'idle', for every party of the match
  unfoldable pub parties_idle : List ℕ → Action S (Unit {0})
  parties_idle [] = pure tt
  parties_idle (k ∷ ks) = execute (λ w. set_party k (set_status idle w.now) w.db) >> parties_idle ks

  -- get_server_allocator(), which raises without an allocator, and deallocate_server
  unfoldable pub deallocate : ℕ → Action S (Unit {0})
  deallocate match_id w = elim w.allocator [
    | none ↦ (raise exception, w)
    | some a ↦ (ok tt, record w { allocator = some (deallocate_server match_id a) })
  ]

  -- What precedes the first statement that writes: the match, its teams and its parties.
  unfoldable pub check_result : Bool → ℕ → MatchResultRequest → Action S Metadata
  check_result jsonb_as_object match_id request = do
    found ← fetch (λ db. find_match match_id db.matches)
    m ← or_fail found (http 404 "Match not found")
    fail_if (not (can_transition m.status ended)) (value_error (invalid_end m.status))
    metadata ← read_metadata jsonb_as_object m.metadata
    fail_if (leb (length metadata.teams) request.winner_team) (http 400 "Invalid winner_team")
    pure metadata

module _ (server : RedisServer) (jsonb_as_object : Bool) where
  open server use {State}

  unfoldable pub get_session : ℕ → Player → Action State SessionResponse
  get_session match_id user = handler "Failed to fetch session" (do
    found ← fetch (λ db. find_match match_id db.matches)
    m ← or_fail found (http 404 "Match not found")
    participant ← fetch (λ db. find_match_player match_id user.id db.match_players)
    fail_if (not (is_some participant)) (http 403 "You are not a participant in this match")
    metadata ← read_metadata jsonb_as_object m.metadata
    pure (record {
      match_id = m.id;
      status = m.status;
      server_endpoint = m.server_endpoint;
      server_token = m.server_token;
      created_at = m.created_at;
      started_at = m.started_at;
      mode = m.mode;
      region = m.region;
      teams = metadata.teams;
      avg_mmr = m.mmr_avg;
    }))

  unfoldable pub session_heartbeat : ℕ → HeartbeatRequest → Action State (Unit {0})
  session_heartbeat match_id request = handler "Failed to process heartbeat" (do
    found ← fetch (λ db. find_match match_id db.matches)
    m ← or_fail found (http 404 "Match not found")
    fail_if (not (is_active m.status)) (http 400 (not_active m.status))
    track_heartbeat server match_id request.server_id request.active_players)

  -- `calendar` gives the year and the month of a time. No statement runs in a transaction.
  module _ (fl : Floats) (calendar : ℕ → ℕ × ℕ) where
    unfoldable pub write_result : ℕ → MatchResultRequest → Metadata → Action State (Unit {0})
    write_result match_id request metadata = do
      execute (λ w. record w.db {
        matches = update_match match_id (end_match request w.now) w.db.matches;
      })
      mode ← fetch (λ db. mode_of (find_match match_id db.matches))
      team_avg_mmrs ← team_averages fl match_id metadata.teams
      season ← gets (λ w. get_season_id (calendar w.now).0 (calendar w.now).1)
      submit_teams fl match_id request season mode team_avg_mmrs 0 metadata.teams
      parties_idle metadata.party_ids
      clear_heartbeat server match_id
      deallocate match_id

    unfoldable pub submit_match_result : ℕ → MatchResultRequest → Action State (Unit {0})
    submit_match_result match_id request = handler "Failed to submit match result" (
        catch_value_error (do
          metadata ← check_result jsonb_as_object match_id request
          write_result match_id request metadata))

-- Opens the endpoints of this file and the actions that they are made of.
unfoldable pub session_endpoints : Unit {0}
unfolding actions read_metadata team_averages submit_player_data submit_player submit_team
    submit_teams parties_idle deallocate check_result get_session session_heartbeat write_result
    submit_match_result catch_value_error player_data opponent_index opponent_avg_mmr history_row
    track_heartbeat clear_heartbeat
session_endpoints = tt
