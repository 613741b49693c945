-- ===== src/MatchTables.antt =====
-- What the SQL statements on matches, their players, the leaderboard and the match history compute.
pub mod Laws
use matchmaker_platform.Prelude.{
  ℕ, ◌+◌, String, Bool, true, false, Option, none, some, List, [], ◌∷◌, ◌++◌, ◌&&◌, ◌||◌, ◌==◌,
  if◌then◌else◌, is_some,
}
use matchmaker_platform.Prelude.Int.{ℤ}
use matchmaker_platform.Schema.{
  Database, Player, Match, MatchPlayer, MatchResult, win, loss, draw, MatchHistory, LeaderboardRow,
}
use matchmaker_platform.Tables.{find_player}
use matchmaker_platform.Text.{Text}
use matchmaker_platform.SessionManager.{same_text}

-- SELECT ... FROM game.match WHERE id = $1
unfoldable pub find_match : ℕ → List Match → Option Match
find_match k [] = none
find_match k (m ∷ ms) = if m.id == k then some m else find_match k ms

-- UPDATE game.match SET ... WHERE id = $1
unfoldable pub update_match : ℕ → (Match → Match) → List Match → List Match
update_match k f [] = []
update_match k f (m ∷ ms) = (if m.id == k then f m else m) ∷ update_match k f ms

-- INSERT INTO game.match: refused where the id is taken.
unfoldable pub insert_match : Match → Database → Option Database
insert_match m db =
    if is_some (find_match m.id db.matches)
    then none
    else some (record db { matches = db.matches ++ m ∷ [] })

-- SELECT ... FROM game.match_player WHERE match_id = $1 AND player_id = $2
unfoldable pub find_match_player : ℕ → ℕ → List MatchPlayer → Option MatchPlayer
find_match_player k q [] = none
find_match_player k q (m ∷ ms) =
    if m.match_id == k && m.player_id == q then some m else find_match_player k q ms

-- UPDATE game.match_player SET ... WHERE match_id = $4 AND player_id = $5
unfoldable pub update_match_player :
    ℕ → ℕ → (MatchPlayer → MatchPlayer) → List MatchPlayer → List MatchPlayer
update_match_player k q f [] = []
update_match_player k q f (m ∷ ms) =
    (if m.match_id == k && m.player_id == q then f m else m) ∷ update_match_player k q f ms

-- INSERT INTO game.match_player: refused where the primary key is taken, or where the match or the
-- player is not there.
unfoldable pub insert_match_player : MatchPlayer → Database → Option Database
insert_match_player m db =
    if is_some (find_match_player m.match_id m.player_id db.match_players)
    then none
    else if is_some (find_match m.match_id db.matches)
    then if is_some (find_player m.player_id db.players)
      then some (record db { match_players = db.match_players ++ m ∷ [] })
      else none
    else none

abbrev pub mem : ℕ → List ℕ → Bool
mem x [] = false
mem x (y ∷ ys) = y == x || mem x ys

-- SELECT mmr_before FROM game.match_player WHERE match_id = $1 AND player_id = ANY($2)
unfoldable pub team_mmrs : ℕ → List ℕ → List MatchPlayer → List ℤ
team_mmrs k team [] = []
team_mmrs k team (m ∷ ms) =
    let rest = team_mmrs k team ms in
    if m.match_id == k && mem m.player_id team then m.mmr_before ∷ rest else rest

-- UPDATE game.player SET mmr = $1 WHERE id = $2
unfoldable pub set_mmr : ℕ → ℤ → List Player → List Player
set_mmr q r [] = []
set_mmr q r (p ∷ ps) = (if p.id == q then record p { mmr = r } else p) ∷ set_mmr q r ps

-- $4 and $5 of the upsert
abbrev pub is_win : MatchResult → ℕ
is_win win = 1
is_win loss = 0
is_win draw = 0

abbrev pub is_loss : MatchResult → ℕ
is_loss win = 0
is_loss loss = 1
is_loss draw = 0

-- DO UPDATE SET rating = $3, wins = wins + $4, losses = losses + $5, games_played + 1
abbrev pub count_game : ℤ → MatchResult → LeaderboardRow → LeaderboardRow
count_game rating r l = record l {
  rating = rating;
  wins = l.wins + is_win r;
  losses = l.losses + is_loss r;
  games_played = l.games_played + 1;
}

-- INSERT INTO game.leaderboard ... ON CONFLICT (season, player_id) DO UPDATE
unfoldable pub upsert_leaderboard :
    Text → ℕ → ℤ → MatchResult → List LeaderboardRow → List LeaderboardRow
upsert_leaderboard season q rating r [] =
    record {
      season = season;
      player_id = q;
      rating = rating;
      rank = none;
      wins = is_win r;
      losses = is_loss r;
      games_played = 1;
    }
    ∷ []
upsert_leaderboard season q rating r (l ∷ ls) =
    let rest = upsert_leaderboard season q rating r ls in
    if same_text l.season season && l.player_id == q then count_game rating r l ∷ ls else l ∷ rest

-- INSERT INTO game.match_history
abbrev pub add_history : MatchHistory → Database → Database
add_history h db = record db { match_history = db.match_history ++ h ∷ [] }
