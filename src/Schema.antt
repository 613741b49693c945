-- ===== src/Schema.antt =====
-- The tables of db/migrations/init.sql that the API reads and writes, as lists of rows in
-- insertion order, and the values that their columns hold.
-- A UUID is a number of 128 bits that is only compared; a timestamp is a number of seconds.
-- Columns that no statement of the API names (banned, platform, mmr_range, ...) are left out.
use matchmaker_platform.Prelude.{ℕ, String, Bool, Option, List}
use matchmaker_platform.Prelude.Int.{ℤ}

-- The CHECK on game.party.status.
pub data PartyStatus : Type 0 where
  idle queueing ready in_match disbanded : PartyStatus

-- The CHECK on game.match.status, and the constants of `SessionStatus`.
pub data SessionStatus : Type 0 where
  allocating active ended cancelled : SessionStatus

-- The CHECK on game.match_player.result and game.match_history.result.
pub data MatchResult : Type 0 where
  win loss draw : MatchResult

-- game.player
pub record Player : Type 0 where
  pub id : ℕ
  pub created_at : ℕ
  pub email : String
  pub password_hash : String
  pub username : String
  pub region : String
  pub mmr : ℤ

-- game.party
pub record Party : Type 0 where
  pub id : ℕ
  pub leader_id : ℕ
  pub created_at : ℕ
  pub updated_at : ℕ
  pub region : String
  pub size : ℕ
  pub max_size : ℕ
  pub status : PartyStatus
  pub queue_mode : Option String
  pub team_size : Option ℕ
  pub avg_mmr : Option ℤ

-- game.party_member
pub record PartyMember : Type 0 where
  pub party_id : ℕ
  pub player_id : ℕ
  pub joined_at : ℕ
  pub ready : Bool
  pub role : Option String

-- The object stored in game.match.metadata.
pub record Metadata : Type 0 where
  pub quality_score : Option ℕ
  pub party_ids : List ℕ
  pub teams : List (List ℕ)

-- The object stored in game.match.result; `metadata` is a JSON text.
pub record MatchOutcome : Type 0 where
  pub winner_team : ℕ
  pub duration_seconds : ℕ
  pub metadata : String

-- game.match
pub record Match : Type 0 where
  pub id : ℕ
  pub created_at : ℕ
  pub started_at : Option ℕ
  pub ended_at : Option ℕ
  pub mode : String
  pub region : String
  pub mmr_avg : Option ℤ
  pub server_endpoint : Option (List ℕ)
  pub server_token : Option (List ℕ)
  pub status : SessionStatus
  pub result : Option MatchOutcome
  pub metadata : Metadata

-- game.match_player
pub record MatchPlayer : Type 0 where
  pub match_id : ℕ
  pub player_id : ℕ
  pub team : ℕ
  pub mmr_before : ℤ
  pub mmr_after : Option ℤ
  pub result : Option MatchResult
  pub stats : String

-- game.leaderboard
pub record LeaderboardRow : Type 0 where
  pub season : List ℕ
  pub player_id : ℕ
  pub rating : ℤ
  pub rank : Option ℕ
  pub wins : ℕ
  pub losses : ℕ
  pub games_played : ℕ

-- game.match_history
pub record MatchHistory : Type 0 where
  pub match_id : ℕ
  pub player_id : ℕ
  pub played_at : ℕ
  pub mode : String
  pub result : MatchResult
  pub mmr_change : ℤ
  pub team : ℕ
  pub stats : String

pub record Database : Type 0 where
  pub players : List Player
  pub parties : List Party
  pub party_members : List PartyMember
  pub matches : List Match
  pub match_players : List MatchPlayer
  pub leaderboard : List LeaderboardRow
  pub match_history : List MatchHistory
