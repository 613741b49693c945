-- ===== src/Tests.antt =====
-- Concrete players, tables and worlds on which the programs are run and the theorems applied.
mod Accounts
mod Parties
mod Requests
mod Sessions
mod Start
mod Ties
mod Services
use matchmaker_platform.Prelude.{
  ℕ, ◌+◌, ◌*◌, ◌/◌, zero, suc, true, false, Option, none, some, List, [], ◌∷◌, if◌then◌else◌,
  String,
}
use matchmaker_platform.Prelude.Int.{ℤ, pos, negsuc, sub_ℕ, ◌+ℤ◌, ◌-ℤ◌}
use matchmaker_platform.Text.{Text, codes, decimal}
use matchmaker_platform.Schema.{
  Database, Player, Party, PartyStatus, PartyMember, Match, active, MatchPlayer,
}
use matchmaker_platform.Sockets.{Link, connected}
use matchmaker_platform.Redis.Memory.{memory, Entries}
use matchmaker_platform.MmrCalculator.{Floats}
use matchmaker_platform.SessionManager.{init_server_allocator}
use matchmaker_platform.Api.{World}
use matchmaker_platform.Party.{new_party, new_member}
use matchmaker_platform.MatchConsumer.{MatchFound}
use matchmaker_platform.Session.{MatchResultRequest}
use matchmaker_platform.System.{Environment}

abbrev pub player : ℕ → String → Player
player id name = record {
  id = id;
  created_at = 0;
  email = "";
  password_hash = "";
  username = name;
  region = "us-west";
  mmr = pos 1200;
}

abbrev pub alice : Player
alice = player 1 "alice"

abbrev pub bob : Player
bob = player 2 "bob"

abbrev pub no_parties : Database
no_parties = record {
  players = alice ∷ bob ∷ [];
  parties = [];
  party_members = [];
  matches = [];
  match_players = [];
  leaderboard = [];
  match_history = [];
}

-- Alice leads party 10, which has two places.
abbrev pub one_party : Database
one_party = record no_parties {
  parties = new_party 10 0 1 "us-west" 2 ∷ [];
  party_members = new_member 10 1 0 true ∷ [];
}

abbrev pub world : Database → World Entries
world db = record {
  db = db;
  redis = some (λ k. none);
  manager = record { party_connections = []; connection_players = [] };
  link = λ x. connected;
  sent = [];
  nats = true;
  published = [];
  allocator = some (init_server_allocator (codes "example.com") 7777);
  session_secret = some (codes "secret");
  now = 100;
  faults = [];
}

-- The players of party 10 against nobody else: two teams of one.
abbrev pub duel : MatchFound
duel = record {
  match_id = some 7;
  region = some "us-west";
  mode = some "ranked";
  teams = (1 ∷ []) ∷ (2 ∷ []) ∷ [];
  party_ids = 10 ∷ [];
  avg_mmr = some (pos 1200);
  quality_score = some 87;
}

abbrev pub running : Match
running = record {
  id = 7;
  created_at = 0;
  started_at = some 0;
  ended_at = none;
  mode = "ranked";
  region = "us-west";
  mmr_avg = some (pos 1200);
  server_endpoint = some (codes "here");
  server_token = some (codes "token");
  status = active;
  result = none;
  metadata = record { quality_score = some 87; party_ids = 10 ∷ []; teams = duel.teams };
}

abbrev pub enrolled : ℕ → ℕ → MatchPlayer
enrolled q team = record {
  match_id = 7;
  player_id = q;
  team = team;
  mmr_before = pos 1200;
  mmr_after = none;
  result = none;
  stats = "{}";
}

abbrev pub one_match : Database
one_match = record one_party {
  matches = running ∷ [];
  match_players = enrolled 1 0 ∷ enrolled 2 1 ∷ [];
}

abbrev pub first_team_wins : MatchResultRequest
first_team_wins = record {
  winner_team = 0;
  duration_seconds = 600;
  player_stats = λ q. none;
  metadata = none;
}

-- Numbers in units of 1/100, rounded towards zero: enough for what the tests compute.
abbrev scaled : ℕ → ℤ → ℕ → ℤ
scaled m (pos a) d = pos (a * m / d)
scaled m (negsuc a) d = sub_ℕ 0 ((a + 1) * m / d)

abbrev mul_ℤ : ℤ → ℤ → ℤ
mul_ℤ a (pos b) = scaled b a 100
mul_ℤ a (negsuc b) = pos 0 -ℤ scaled (b + 1) a 100

abbrev div_ℤ : ℤ → ℤ → ℤ
div_ℤ a (pos b) = scaled 100 a b
div_ℤ a (negsuc b) = pos 0 -ℤ scaled 100 a (b + 1)

-- 10 ** x at whole x only: 1 at the fractions between -1 and 1.
abbrev ten_to : ℕ → ℕ
ten_to zero = 1
ten_to (suc n) = 10 * ten_to n

abbrev pow_ten_hundredths : ℤ → Option ℤ
pow_ten_hundredths (pos a) = some (pos (100 * ten_to (a / 100)))
pow_ten_hundredths (negsuc a) = some (pos (100 / ten_to ((a + 1) / 100)))

abbrev pub hundredths : Floats
hundredths = record {
  F = ℤ;
  of_int = λ a. scaled 100 a 1;
  half = pos 50;
  add = λ a b. a +ℤ b;
  sub = λ a b. a -ℤ b;
  mul = mul_ℤ;
  div = div_ℤ;
  pow_ten = pow_ten_hundredths;
  truncate = λ a. some (scaled 1 a 100);
}

abbrev pub calendar : ℕ → ℕ × ℕ
calendar now = (2025, 11)

abbrev pub hmac : Text → Text → Text
hmac secret message = message
