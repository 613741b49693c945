-- ===== src/Leaderboard/Queries.antt =====
-- The three endpoints of services/api/routes/leaderboard.py write to no table.
use matchmaker_platform.Prelude.{ℕ, String, Bool, Option}
use matchmaker_platform.Text.{Text}
use matchmaker_platform.Schema.{Player}
use matchmaker_platform.OrderBy.{OrderBy}
use matchmaker_platform.MmrCalculator.{Floats}
use matchmaker_platform.Api.Quiet.{Steady}
use matchmaker_platform.Api.Steady.{
  Steady-pure, Steady-gets, Steady-or_fail, Steady-fetch, Steady-handler, Steady-bind,
}
use matchmaker_platform.Leaderboard.{
  played_later, ranked_before, get_match_history, get_leaderboard, get_current_leaderboard,
}

module _ {S : Type 0} where
  pub get_match_history-Steady :
      (by_time : OrderBy played_later) (jsonb_as_object : Bool) (player_id : Option ℕ)
      (mode : Option String) (page page_size : ℕ) (user : Player)
      → Steady {S = S}
          (get_match_history by_time jsonb_as_object player_id mode page page_size user)
  unfolding get_match_history
  get_match_history-Steady by_time jsonb_as_object player_id mode page page_size user =
      Steady-handler _ (
        Steady-bind (Steady-fetch _) λ total.
          Steady-bind (Steady-fetch _)
            λ rows. Steady-bind (Steady-or_fail _ _) λ entries. Steady-pure _)

  pub get_leaderboard-Steady :
      (fl : Floats) (by_rating : OrderBy ranked_before) (season : Text) (page page_size : ℕ)
      → Steady {S = S} (get_leaderboard fl by_rating season page page_size)
  unfolding get_leaderboard
  get_leaderboard-Steady fl by_rating season page page_size =
      Steady-handler _
        (Steady-bind (Steady-fetch _) λ total. Steady-bind (Steady-fetch _) λ rows. Steady-pure _)

  pub get_current_leaderboard-Steady :
      (fl : Floats) (by_rating : OrderBy ranked_before) (calendar : ℕ → ℕ × ℕ) (page page_size : ℕ)
      → Steady {S = S} (get_current_leaderboard fl by_rating calendar page page_size)
  unfolding get_current_leaderboard
  get_current_leaderboard-Steady fl by_rating calendar page page_size =
      Steady-bind (Steady-gets _)
        λ season. get_leaderboard-Steady fl by_rating season page page_size
