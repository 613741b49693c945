-- ===== src/Leaderboard.antt =====
-- services/api/routes/leaderboard.py: get_match_history, get_leaderboard and
-- get_current_leaderboard, with their response types of services/api/models/schemas.py.
pub mod Pages
pub mod History
pub mod Queries
use matchmaker_platform.Prelude.{
  ℕ, zero, suc, ◌+◌, ◌-◌, ◌*◌, String, Bool, true, false, not, ◌&&◌, ◌||◌, Option, none, some, List,
  [], ◌∷◌, ◌==◌, leb, ltb, if◌then◌else◌, length,
}
use text.Mathlib.Text.{◌==◌ as same_string}
use matchmaker_platform.Prelude.Int.{ℤ, pos, negsuc}
use matchmaker_platform.Text.{Text}
use matchmaker_platform.Schema.{Database, Player, MatchResult, MatchHistory, LeaderboardRow}
use matchmaker_platform.OrderBy.{OrderBy, rows_at}
use matchmaker_platform.Tables.{find_player}
use matchmaker_platform.SessionManager.{same_text}
use matchmaker_platform.MmrCalculator.{Floats, get_season_id}
use matchmaker_platform.Api.{Action, exception, pure, gets, or_fail, ◌>>=◌, ◌>>◌, fetch, handler}

pub record MatchHistoryEntry : Type 0 where
  pub match_id : ℕ
  pub played_at : ℕ
  pub mode : String
  pub result : MatchResult
  pub mmr_change : ℤ
  pub team : ℕ
  pub stats : String

pub record MatchHistoryResponse : Type 0 where
  pub entries : List MatchHistoryEntry
  pub total : ℕ
  pub page : ℕ
  pub page_size : ℕ
  pub has_more : Bool

pub record LeaderboardEntry (F : Type 0) : Type 0 where
  pub player_id : ℕ
  pub username : String
  pub rating : ℤ
  pub rank : ℕ
  pub wins : ℕ
  pub losses : ℕ
  pub games_played : ℕ
  pub win_rate : F

pub record LeaderboardResponse (F : Type 0) : Type 0 where
  pub season : Text
  pub entries : List (LeaderboardEntry F)
  pub total : ℕ
  pub page : ℕ
  pub page_size : ℕ

-- ORDER BY played_at DESC
abbrev pub played_later : MatchHistory → MatchHistory → Bool
played_later a b = leb b.played_at a.played_at

-- if mode: ... AND mode = $2; an empty text is no filter
abbrev pub in_mode : Option String → String → Bool
in_mode none m = true
in_mode (some mode) m = if same_string mode "" then true else same_string m mode

-- FROM game.match_history WHERE player_id = $1 [AND mode = $2]
unfoldable pub history_of : ℕ → Option String → List MatchHistory → List MatchHistory
history_of q mode [] = []
history_of q mode (h ∷ hs) =
    let rest = history_of q mode hs in
    if h.player_id == q && in_mode mode h.mode then h ∷ rest else rest

abbrev pub history_entry : MatchHistory → MatchHistoryEntry
history_entry row = record {
  match_id = row.match_id;
  played_at = row.played_at;
  mode = row.mode;
  result = row.result;
  mmr_change = row.mmr_change;
  team = row.team;
  stats = row.stats;
}

-- The list of entries. `stats` is validated as a dict: without a codec on the connection the JSONB
-- column is a text, and `none` is the ValidationError.
unfoldable pub history_entries : Bool → List MatchHistory → Option (List MatchHistoryEntry)
history_entries jsonb_as_object [] = some []
history_entries jsonb_as_object (row ∷ rows) =
    let rest = history_entries jsonb_as_object rows in
    if jsonb_as_object
    then elim rest [ none ↦ none | some entries ↦ some (history_entry row ∷ entries) ]
    else none

abbrev pub player_or : ℕ → Option ℕ → ℕ
player_or current none = current
player_or current (some q) = q

-- `page` is at least 1 and `page_size` from 1 to 100, by `Query`.
unfoldable pub get_match_history :
    {S : Type 0}
    → OrderBy played_later
    → Bool
    → Option ℕ
    → Option String
    → (page page_size : ℕ) → Player
    → Action S MatchHistoryResponse
get_match_history by_time jsonb_as_object player_id mode page page_size current_user =
    handler "Failed to fetch match history" (
      let q = player_or current_user.id player_id in
      do
        total ← fetch (λ db. length (history_of q mode db.match_history))
        rows ← fetch (λ db.
            rows_at by_time page_size ((page - 1) * page_size) (history_of q mode db.match_history))
        entries ← or_fail (history_entries jsonb_as_object rows) exception
        pure (record {
          entries = entries;
          total = total;
          page = page;
          page_size = page_size;
          has_more = ltb (page * page_size) total;
        }))

-- A row of game.leaderboard with the name of its player.
pub record Standing : Type 0 where
  pub row : LeaderboardRow
  pub username : String

abbrev pub ltb_ℤ : ℤ → ℤ → Bool
ltb_ℤ (pos a) (pos b) = ltb a b
ltb_ℤ (pos a) (negsuc b) = false
ltb_ℤ (negsuc a) (pos b) = true
ltb_ℤ (negsuc a) (negsuc b) = ltb b a

-- ORDER BY l.rating DESC, l.wins DESC
abbrev pub ranked_before : Standing → Standing → Bool
ranked_before a b =
    if ltb_ℤ b.row.rating a.row.rating
    then true
    else if ltb_ℤ a.row.rating b.row.rating
    then false
    else leb b.row.wins a.row.wins

-- FROM game.leaderboard WHERE season = $1
unfoldable pub in_season : Text → List LeaderboardRow → List LeaderboardRow
in_season season [] = []
in_season season (l ∷ ls) =
    let rest = in_season season ls in if same_text l.season season then l ∷ rest else rest

-- JOIN game.player p ON l.player_id = p.id
unfoldable pub with_names : List Player → List LeaderboardRow → List Standing
with_names ps [] = []
with_names ps (l ∷ ls) =
    let rest = with_names ps ls in
    elim (find_player l.player_id ps) [
      | none ↦ rest
      | some p ↦ record { row = l; username = p.username } ∷ rest
    ]

-- row["rank"] or (offset + idx + 1)
abbrev pub rank_or : ℕ → Option ℕ → ℕ
rank_or n none = n
rank_or n (some zero) = n
rank_or n (some (suc r)) = suc r

abbrev pub win_rate : (fl : Floats) → ℕ → ℕ → fl.F
win_rate fl wins zero = fl.of_int (pos 0)
win_rate fl wins (suc n) = fl.div (fl.of_int (pos wins)) (fl.of_int (pos (suc n)))

abbrev pub leaderboard_entry : (fl : Floats) → ℕ → Standing → LeaderboardEntry fl.F
leaderboard_entry fl n s = record {
  player_id = s.row.player_id;
  username = s.username;
  rating = s.row.rating;
  rank = rank_or n s.row.rank;
  wins = s.row.wins;
  losses = s.row.losses;
  games_played = s.row.games_played;
  win_rate = win_rate fl s.row.wins s.row.games_played;
}

-- The entries of `enumerate(rows)`, the first with the number `n`.
unfoldable pub leaderboard_entries :
    (fl : Floats) → ℕ → List Standing → List (LeaderboardEntry fl.F)
leaderboard_entries fl n [] = []
leaderboard_entries fl n (s ∷ ss) = leaderboard_entry fl n s ∷ leaderboard_entries fl (suc n) ss

-- The rows of a season, in no order.
abbrev pub standings : Text → Database → List Standing
standings season db = with_names db.players (in_season season db.leaderboard)

module _ {S : Type 0} (fl : Floats) (by_rating : OrderBy ranked_before) where
  unfoldable pub get_leaderboard : Text → (page page_size : ℕ) → Action S (LeaderboardResponse fl.F)
  get_leaderboard season page page_size = handler "Failed to fetch leaderboard" (
      let offset = (page - 1) * page_size in
      do
        total ← fetch (λ db. length (in_season season db.leaderboard))
        rows ← fetch (λ db. rows_at by_rating page_size offset (standings season db))
        pure (record {
          season = season;
          entries = leaderboard_entries fl (offset + 1) rows;
          total = total;
          page = page;
          page_size = page_size;
        }))

  -- `calendar` gives the year and the month of a time.
  unfoldable pub get_current_leaderboard :
      (ℕ → ℕ × ℕ) → (page page_size : ℕ) → Action S (LeaderboardResponse fl.F)
  get_current_leaderboard calendar page page_size = do
    season ← gets (λ w. let (year, month) = calendar w.now in get_season_id year month)
    get_leaderboard season page page_size
