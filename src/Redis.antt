-- ===== src/Redis.antt =====
-- The Redis server, which the API reaches through the client package redis-py. It is not part of
-- the program: its state and its commands are the fields of a record, with the documented effect
-- of each command on what a later GET returns.
pub mod Memory
use matchmaker_platform.Prelude.{
  ℕ, String, ◌<◌, ◌≡◌, Bool, false, Option, none, some, List, ◌==◌, if◌then◌else◌,
}
use matchmaker_platform.Prelude.Int.{ℤ}
use matchmaker_platform.Schema.{Party, PartyStatus}
use matchmaker_platform.Tables.{MemberInfo}

-- The keys that the program builds, one constructor for each f-string: "party:{id}" and so on.
pub data Key : Type 0 where
  party ready_check queue_pos player_session heartbeat : ℕ → Key

abbrev pub same_key : Key → Key → Bool
same_key (party a) (party b) = a == b
same_key (ready_check a) (ready_check b) = a == b
same_key (queue_pos a) (queue_pos b) = a == b
same_key (player_session a) (player_session b) = a == b
same_key (heartbeat a) (heartbeat b) = a == b
same_key _ _ = false

-- The dictionary of `_get_party_with_members`: the columns of the party, with its members.
pub record PartyData : Type 0 where
  pub party : Party
  pub members : List MemberInfo

-- A string in a JSON object: `str` of a UUID, or of a time.
pub data JsonString : Type 0 where
  uuid_string time_string : ℕ → JsonString

-- The object of a party and those of its members, with strings for ids and times.
pub record MemberJson : Type 0 where
  pub player_id : JsonString
  pub username : String
  pub joined_at : JsonString
  pub ready : Bool
  pub role : Option String

pub record PartyJson : Type 0 where
  pub id : JsonString
  pub leader_id : JsonString
  pub created_at : JsonString
  pub updated_at : JsonString
  pub region : String
  pub size : ℕ
  pub max_size : ℕ
  pub status : PartyStatus
  pub queue_mode : Option String
  pub team_size : Option ℕ
  pub avg_mmr : Option ℤ
  pub members : List MemberJson

-- What the program stores: the text of a JSON object, which json.loads gives back, the text of an id,
-- or any other text, by its code points.
pub data Value : Type 0 where
  party_json : PartyJson → Value
  id_text : ℕ → Value
  text : List ℕ → Value

pub record RedisServer : Type 1 where
  pub State : Type 0
  pub get : Key → State → Option Value
  pub setex : Key → ℕ → Value → State → State
  pub delete : Key → State → State
  -- the seconds left, if the key has an expiry
  pub ttl : Key → State → Option ℕ
  pub get-setex :
      (j k : Key) (t : ℕ) (v : Value) (s : State)
      → 0 < t
      → get j (setex k t v s) ≡ (if same_key k j then some v else get j s)
  pub get-delete :
      (j k : Key) (s : State) → get j (delete k s) ≡ (if same_key k j then none else get j s)
  pub ttl-setex : (k : Key) (t : ℕ) (v : Value) (s : State) → 0 < t → ttl k (setex k t v s) ≡ some t
  pub ttl-delete : (k : Key) (s : State) → ttl k (delete k s) ≡ none
