-- ===== src/Tests/Requests.antt =====
-- The theorems on the leaderboard, the match history and the rate limiter at concrete rows.
use matchmaker_platform.Prelude.{
  ℕ, ◌+◌, ◌*◌, ◌/◌, ◌<◌, ◌≤◌, ◌≡◌, refl, true, false, Option, none, some, List, [], ◌∷◌, ◌==◌, take,
  if◌then◌else◌, arith,
}
use matchmaker_platform.Prelude.Int.{pos}
use matchmaker_platform.Text.{codes}
use matchmaker_platform.Schema.{Database, LeaderboardRow, MatchHistory, win}
use matchmaker_platform.Tables.{find_player}
use matchmaker_platform.SessionManager.{same_text}
use matchmaker_platform.OrderBy.{OrderBy, has_no_ties, is_apart}
use matchmaker_platform.OrderBy.Insertion.{insertion}
use matchmaker_platform.Api.{raise, http}
use matchmaker_platform.Leaderboard.{
  Standing, played_later, ranked_before, standings, in_season, with_names, history_of,
  get_match_history,
}
use matchmaker_platform.Leaderboard.Pages.{ranking, first_pages, first_pages-ranking}
use matchmaker_platform.Leaderboard.History.{get_match_history-text}
use matchmaker_platform.RateLimit.{
  Counter, incremented, aged, CounterServer, Middleware, decide, write,
}
use matchmaker_platform.RateLimit.Client.{Event, all_served, verdicts}
use matchmaker_platform.RateLimit.Bound.{count_passed, seconds, count_passed-verdicts, lost_expiry}
use matchmaker_platform.Tests.{alice, no_parties, world, hundredths}

pub later_total : (a b : MatchHistory) → played_later a b ≡ false → played_later b a ≡ true
later_total a b h = ground arith

pub later_trans :
    (a b c : MatchHistory)
    → played_later a b ≡ true
    → played_later b c ≡ true
    → played_later a c ≡ true
later_trans a b c h k = ground arith

abbrev pub by_time : OrderBy played_later
by_time = insertion played_later later_total later_trans

pub ranked_total : (a b : Standing) → ranked_before a b ≡ false → ranked_before b a ≡ true
ranked_total a b h = ground (arith, a.row.rating, b.row.rating)

pub ranked_trans :
    (a b c : Standing)
    → ranked_before a b ≡ true
    → ranked_before b c ≡ true
    → ranked_before a c ≡ true
ranked_trans a b c h k = ground (arith, a.row.rating, b.row.rating, c.row.rating)

abbrev pub by_rating : OrderBy ranked_before
by_rating = insertion ranked_before ranked_total ranked_trans

abbrev pub standing : ℕ → ℕ → LeaderboardRow
standing q rating = record {
  season = codes "2025-Q4";
  player_id = q;
  rating = pos rating;
  rank = none;
  wins = 1;
  losses = 0;
  games_played = 1;
}

abbrev two_ranked : Database
two_ranked = record no_parties { leaderboard = standing 1 1190 ∷ standing 2 1210 ∷ [] }

no_ties : has_no_ties ranked_before (standings (codes "2025-Q4") two_ranked) ≡ true
unfolding has_no_ties is_apart in_season with_names find_player same_text
no_ties = refl

first_pages-ranking_example :
    first_pages hundredths by_rating (codes "2025-Q4") 1 (λ i. world two_ranked) 2
    ≡ take (2 * 1) (ranking hundredths by_rating (codes "2025-Q4") two_ranked)
first_pages-ranking_example =
    first_pages-ranking hundredths by_rating (codes "2025-Q4") 1 two_ranked (λ i. world two_ranked)
      (λ i. refl) (λ i. refl) no_ties 2

abbrev played : ℕ → MatchHistory
played at = record {
  match_id = 7;
  player_id = 1;
  played_at = at;
  mode = "ranked";
  result = win;
  mmr_change = pos 16;
  team = 0;
  stats = "{}";
}

abbrev two_played : Database
two_played = record no_parties { match_history = played 10 ∷ played 20 ∷ [] }

get_match_history-text_example :
    (get_match_history by_time false none (some "ranked") 2 1 alice (world two_played)).0
    ≡ raise (http 500 "Failed to fetch match history")
unfolding history_of
get_match_history-text_example =
    get_match_history-text by_time none (some "ranked") 1 alice (world two_played) refl
      (omega arith) 2

abbrev counters : CounterServer
counters = record {
  State = ℕ → Option Counter;
  get = λ j s. s j;
  setex = λ k t v s j. if k == j then some (record { count = v; ttl = some t }) else s j;
  incr = λ k s j. if k == j then some (incremented (s k)) else s j;
  elapse = λ s j. aged (s j);
  get-setex = λ j k t v s h. refl;
  get-incr = λ j k s. refl;
  get-elapse = λ j s. refl;
}

abbrev ask_from : ℕ → Event
ask_from ip = Event.request (record {
  path = "/v1/party";
  client = some ip;
  from_url_error = false;
  get_error = false;
  write_error = false;
})

abbrev trace : List Event
trace = ask_from 1 ∷ ask_from 2 ∷ ask_from 1 ∷ Event.second ∷ ask_from 1 ∷ []

trace_served : all_served trace ≡ true
unfolding all_served
trace_served = refl

abbrev idle : Middleware counters
idle = record { redis_client = false; redis = λ j. none }

count_passed-verdicts_example :
    count_passed (verdicts counters 2 1 trace idle) ≤ 2 + 2 * (seconds trace / 60)
count_passed-verdicts_example =
    count_passed-verdicts counters 2 1 (omega arith) trace idle trace_served refl

-- The last second of a window in which one request was counted.
abbrev last_second : Counter
last_second = record { count = 1; ttl = some 1 }

abbrev closing : Middleware counters
closing = record { redis_client = true; redis = λ j. some last_second }

lost_expiry_example :
    let late = write counters (decide 2 (some last_second)) 1 (counters.elapse closing.redis) in
    count_passed (verdicts counters 2 1 trace (record closing { redis = late })) < 2
lost_expiry_example =
    lost_expiry counters 2 1 (omega arith) last_second trace closing refl refl refl trace_served
