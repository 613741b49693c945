-- ===== src/Tests/Sessions.antt =====
-- Runs of the match consumer and of submit_match_result, and the theorems on them at one match.
use matchmaker_platform.Prelude.{
  ◌+◌, is_some, ◌≡◌, refl, ◌≢◌, ◌⊎◌, true, false, none, some, [], ◌∷◌, arith,
}
use matchmaker_platform.Prelude.Int.{pos}
use matchmaker_platform.Text.{decimal}
use matchmaker_platform.Schema.{Database, Match, active, ended}
use matchmaker_platform.MatchTables.{find_match}
use matchmaker_platform.MatchTables.Laws.{IsBalanced}
use matchmaker_platform.Redis.Memory.{memory}
use matchmaker_platform.Api.{raise, Error}
use matchmaker_platform.MatchConsumer.{handle_match_found}
use matchmaker_platform.MatchConsumer.Atomicity.{
  IsOpened, handle_match_found-atomic, handle_match_found-again,
}
use matchmaker_platform.MatchConsumer.{all_player_ids}
use matchmaker_platform.Schema.{Player, LeaderboardRow, SessionStatus}
use matchmaker_platform.MatchTables.{
  update_match, update_match_player, team_mmrs, set_mmr, upsert_leaderboard,
}
use matchmaker_platform.Tables.{update_party}
use matchmaker_platform.MmrCalculator.{calculate_mmr_change, team_average, get_season_id}
use matchmaker_platform.SessionManager.{can_transition, same_text, deallocate_server}
use matchmaker_platform.Prelude.Int.{ℤ, sum, ◌+ℤ◌, ◌-ℤ◌}
use matchmaker_platform.Session.{session_endpoints}
use matchmaker_platform.Api.{ok}
use matchmaker_platform.Prelude.{none, ℕ, List, Option}
use matchmaker_platform.Api.{World, raise, http}
use matchmaker_platform.Redis.Memory.{Entries}
use matchmaker_platform.SessionManager.{
  ServerAllocator, allocate_server, store_server, generate_session_token,
}
use matchmaker_platform.MatchConsumer.{consumer}
use matchmaker_platform.MatchTables.{insert_match, insert_match_player}
use matchmaker_platform.Prelude.{true, false, length}
use matchmaker_platform.MatchConsumer.Progress.{CanOpen, handle_match_found-IsOpened}
use matchmaker_platform.SessionManager.{init_server_allocator}
use matchmaker_platform.Tables.{find_player}
use matchmaker_platform.MatchTables.{find_match_player}
use matchmaker_platform.Text.{codes}
use matchmaker_platform.Prelude.{arith}
use matchmaker_platform.Session.{submit_match_result, opponent_index, opponent_avg_mmr}
use matchmaker_platform.Session.Once.{
  IsSettled, submit_match_result-IsSettled, submit_match_result-refused, submit_match_result-once,
  submit_match_result-text,
}
use matchmaker_platform.Session.Safety.{submit_match_result-IsBalanced}
use matchmaker_platform.Session.Opponents.{opponent_avg_mmr-is_some, opponent_index-teams}
use matchmaker_platform.Tests.{
  duel, running, one_party, one_match, first_team_wins, world, hundredths, calendar, hmac,
}

handle_match_found-atomic_example :
    let w' = (handle_match_found hmac decimal duel (world one_party)).1 in
    (w'.db ≡ one_party) ⊎ IsOpened duel one_party w'.db
handle_match_found-atomic_example = handle_match_found-atomic hmac decimal duel (world one_party)

duel-CanOpen : CanOpen duel (world one_party)
unfolding find_match find_player find_match_player all_player_ids
duel-CanOpen = record {
  calm = refl;
  k = 7;
  id = refl;
  mode = "ranked";
  has_mode = refl;
  region = "us-west";
  has_region = refl;
  quality = refl;
  team = 1 ∷ [];
  others = (2 ∷ []) ∷ [];
  has_teams = refl;
  fresh = refl;
  players = (refl, refl, (λ e. omega (arith, e), tt), (refl, refl, tt, tt));
  allocator = init_server_allocator (codes "example.com") 7777;
  has_allocator = refl;
  secret = codes "secret";
  has_secret = refl;
}

handle_match_found-IsOpened_example :
    IsOpened duel one_party (handle_match_found hmac decimal duel (world one_party)).1.db
handle_match_found-IsOpened_example =
    handle_match_found-IsOpened hmac decimal duel (world one_party) duel-CanOpen

match_known : find_match 7 one_match.matches ≢ none
unfolding find_match
match_known e = cc

handle_match_found-again_example :
    (handle_match_found hmac decimal duel (world one_match)).1.db ≡ one_match
handle_match_found-again_example =
    handle_match_found-again hmac decimal duel 7 (world one_match) refl match_known

submit_match_result-IsSettled_example :
    let (r, w') =
      submit_match_result memory true hundredths calendar 7 first_team_wins (world one_match) in
    IsSettled 7 first_team_wins true one_match r w'.db
submit_match_result-IsSettled_example =
    submit_match_result-IsSettled memory true hundredths calendar 7 first_team_wins
      (world one_match)

submit_match_result-once_example :
    let v =
      (submit_match_result memory true hundredths calendar 7 first_team_wins (world one_match)).1 in
    (v.db ≡ one_match)
    ⊎ ((submit_match_result memory true hundredths calendar 7 first_team_wins v).1.db ≡ v.db)
submit_match_result-once_example =
    submit_match_result-once memory true hundredths calendar 7 first_team_wins first_team_wins
      (world one_match)
      (submit_match_result memory true hundredths calendar 7 first_team_wins (world one_match)).1
      refl

abbrev over : Match
over = record running { status = ended }

abbrev ended_match : Database
ended_match = record one_match { matches = over ∷ [] }

over_found : find_match 7 ended_match.matches ≡ some over
unfolding find_match
over_found = refl

over-ne : over.status ≢ active
over-ne e = ground arith

submit_match_result-refused_example :
    let (r, w') =
      submit_match_result memory true hundredths calendar 7 first_team_wins (world ended_match) in
    ((e : Error) × (r ≡ raise e)) × (w'.db ≡ ended_match)
submit_match_result-refused_example =
    submit_match_result-refused memory true hundredths calendar 7 over first_team_wins
      (world ended_match) over_found over-ne

submit_match_result-text_example :
    let (r, w') =
      submit_match_result memory false hundredths calendar 7 first_team_wins (world one_match) in
    ((e : Error) × (r ≡ raise e)) × (w'.db ≡ one_match)
submit_match_result-text_example =
    submit_match_result-text memory hundredths calendar 7 first_team_wins (world one_match)

submit_match_result-IsBalanced_example :
    IsBalanced
      (submit_match_result memory true hundredths calendar 7 first_team_wins
        (world one_match)).1.db.leaderboard
submit_match_result-IsBalanced_example =
    submit_match_result-IsBalanced memory true hundredths calendar 7 first_team_wins
      (world one_match) tt

opponent_avg_mmr-is_some_example :
    is_some (opponent_avg_mmr 2 (pos 1200 ∷ pos 1300 ∷ pos 1400 ∷ [])) ≡ true
opponent_avg_mmr-is_some_example =
    opponent_avg_mmr-is_some 2 (pos 1200 ∷ pos 1300 ∷ pos 1400 ∷ []) (omega arith)

opponent_index-teams_example : (opponent_index 0 2 + 0 ≡ 1) × (opponent_index 2 3 ≡ 2)
opponent_index-teams_example = opponent_index-teams 0 1 (omega arith) (omega arith)

abbrev ratings : List Player → List ℤ
ratings [] = []
ratings (p ∷ ps) = p.mmr ∷ ratings ps

abbrev records : List LeaderboardRow → List (ℕ × ℕ × ℕ)
records [] = []
records (l ∷ ls) = (l.player_id, l.wins, l.losses) ∷ records ls

abbrev end_of : Option Match → Option SessionStatus
end_of none = none
end_of (some m) = some m.status

-- The first team wins the duel: the match ends, 16 points change hands, and the leaderboard has a
-- win and a loss.
duel_ends :
    let (r, w') =
      submit_match_result memory true hundredths calendar 7 first_team_wins (world one_match) in
    (r ≡ ok tt)
    × (end_of (find_match 7 w'.db.matches) ≡ some ended)
    × (ratings w'.db.players ≡ pos 1216 ∷ pos 1184 ∷ [])
    × (records w'.db.leaderboard ≡ (1, 1, 0) ∷ (2, 0, 1) ∷ [])
unfolding session_endpoints find_match update_match find_match_player update_match_player team_mmrs
    set_mmr upsert_leaderboard find_player calculate_mmr_change team_average get_season_id
    can_transition update_party same_text sum ◌+ℤ◌ ◌-ℤ◌ decimal deallocate_server
duel_ends = (refl, refl, refl, refl)

abbrev third_statement_fails : World Entries
third_statement_fails = record (world one_match) {
  faults = false ∷ false ∷ false ∷ false ∷ true ∷ [];
}

-- A fault after the match is marked ended loses the ratings: the request ends in a 500, and sending
-- the result again in a 400.
lost_ratings :
    let (r, w) =
      submit_match_result memory true hundredths calendar 7 first_team_wins third_statement_fails in
    let (again, v) = submit_match_result memory true hundredths calendar 7 first_team_wins w in
    (r ≡ raise (http 500 "Failed to submit match result"))
    × (again ≡ raise (http 400 "Invalid session state transition: ended -> ended"))
    × (ratings v.db.players ≡ pos 1200 ∷ pos 1200 ∷ [])
unfolding session_endpoints find_match update_match can_transition
lost_ratings = (refl, refl, refl)

abbrev no_secret : World Entries
no_secret = record (world one_party) { session_secret = none }

abbrev servers : Option ServerAllocator → ℕ
servers none = 0
servers (some a) = length a.allocated_servers

-- Where the token cannot be made, the tables are rolled back and the allocated server stays.
leaked_server :
    let w = (handle_match_found hmac decimal duel no_secret).1 in
    (w.db ≡ one_party) × (servers w.allocator ≡ 1)
unfolding consumer find_player insert_match insert_match_player find_match find_match_player
    allocate_server init_server_allocator store_server generate_session_token
leaked_server = (refl, refl)
