-- ===== src/Party.antt =====
-- services/api/routes/party.py: the request and response types, the rows that the statements
-- write, and the tests on a status. The endpoints are in `Membership` and `Queueing`.
pub mod Response
pub mod Membership
pub mod Queueing
pub mod Capacity
pub mod Safety
pub mod QueueSafety
pub mod Changes
pub mod Effects
pub mod Answers
pub mod Leaving
pub mod Interleaving
use matchmaker_platform.Prelude.{
  ℕ, ◌≤◌, String, Bool, true, false, Option, none, some, List, [], ◌∷◌, ◌++◌, if◌then◌else◌,
  is_some,
}
use matchmaker_platform.Schema.{
  Database, Party, PartyMember, PartyStatus, idle, queueing, ready, in_match, disbanded,
}
use matchmaker_platform.Tables.{find_player, find_party, update_party, is_member}

-- CreatePartyRequest and QueueRequest of services/api/models/schemas.py, with their constraints.
pub record CreatePartyRequest : Type 0 where
  pub max_size : ℕ
  pub region : Option String

abbrev pub IsValidCreate : CreatePartyRequest → Type 0
IsValidCreate r = (2 ≤ r.max_size) × (r.max_size ≤ 10)

pub record QueueRequest : Type 0 where
  pub mode : String
  pub team_size : ℕ

-- ReadyCheckResponse
pub record ReadyCheck : Type 0 where
  pub party_id : ℕ
  pub ready_count : ℕ
  pub total_count : ℕ
  pub all_ready : Bool
  pub not_ready_players : List String

-- The two messages of `leave_party`.
pub data LeaveResult : Type 0 where
  party_disbanded left_party : ℕ → LeaveResult

abbrev pub either_region : Option String → String → String
either_region none r = r
either_region (some r) _ = r

-- INSERT INTO game.party ...: the row with its defaults, unless the id is taken.
unfoldable pub insert_party : Party → Database → Option Database
insert_party r db =
    if is_some (find_party r.id db.parties)
    then none
    else some (record db { parties = db.parties ++ r ∷ [] })

-- INSERT INTO game.party_member ...: refused where the primary key is taken, or where the party
-- or the player is not there.
unfoldable pub insert_member : PartyMember → Database → Option Database
insert_member m db =
    if is_member m.party_id m.player_id db.party_members
    then none
    else if is_some (find_party m.party_id db.parties)
    then if is_some (find_player m.player_id db.players)
      then some (record db { party_members = db.party_members ++ m ∷ [] })
      else none
    else none

abbrev pub set_party : ℕ → (Party → Party) → Database → Database
set_party k f db = record db { parties = update_party k f db.parties }

-- The trigger update_party_updated_at sets the column on every UPDATE.
abbrev pub touch : ℕ → Party → Party
touch now p = record p { updated_at = now }

abbrev pub resize : (ℕ → ℕ) → ℕ → Party → Party
resize f now p = record p { size = f p.size; updated_at = now }

abbrev pub set_status : PartyStatus → ℕ → Party → Party
set_status s now p = record p { status = s; updated_at = now }

abbrev pub open_to_join : PartyStatus → Bool
open_to_join idle = true
open_to_join queueing = true
open_to_join _ = false

abbrev pub is_queueing : PartyStatus → Bool
is_queueing queueing = true
is_queueing _ = false

-- f"Cannot join party in {party['status']} status"
abbrev pub cannot_join : PartyStatus → String
cannot_join idle = "Cannot join party in idle status"
cannot_join queueing = "Cannot join party in queueing status"
cannot_join ready = "Cannot join party in ready status"
cannot_join in_match = "Cannot join party in in_match status"
cannot_join disbanded = "Cannot join party in disbanded status"

-- party["queue_mode"] or "unknown"
abbrev pub mode_or_unknown : Option String → String
mode_or_unknown none = "unknown"
mode_or_unknown (some m) = m

-- INSERT ... VALUES ($1, $2, 1, $3, 'idle')
abbrev pub new_party : ℕ → ℕ → ℕ → String → ℕ → Party
new_party id now leader region max_size = record {
  id = id;
  leader_id = leader;
  created_at = now;
  updated_at = now;
  region = region;
  size = 1;
  max_size = max_size;
  status = idle;
  queue_mode = none;
  team_size = none;
  avg_mmr = none;
}

abbrev pub new_member : ℕ → ℕ → ℕ → Bool → PartyMember
new_member party_id player_id now is_ready = record {
  party_id = party_id;
  player_id = player_id;
  joined_at = now;
  ready = is_ready;
  role = none;
}
