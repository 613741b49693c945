-- ===== src/Cache.antt =====
-- services/api/utils/redis_cache.py: the party cache, ready-check timers, queue positions and
-- player sessions in Redis. Every function catches the exceptions of the client. As for PostgreSQL,
-- a command that writes takes an entry of `faults` for the way there, where it changes nothing, and
-- one for the way back, where it has been done and its reply is lost. A read that faults finds
-- nothing.
pub mod Laws
pub mod RoundTrip
use matchmaker_platform.Prelude.{
  ℕ, zero, suc, Bool, false, not, Option, none, some, List, [], ◌∷◌, if◌then◌else◌,
}
use matchmaker_platform.Text.{codes, decimal, parse_int}
use matchmaker_platform.Schema.{Party}
use matchmaker_platform.Tables.{MemberInfo}
use matchmaker_platform.Redis.{
  Key, party, ready_check, queue_pos, player_session, Value, party_json, id_text, text, PartyData,
  RedisServer, JsonString, uuid_string, time_string, MemberJson, PartyJson,
}
use matchmaker_platform.Api.{World, Action, ok, later, fault_now}

-- `default=str` of json.dumps, which a datetime is passed to, since JSON has none; without it
-- json.dumps raises a TypeError (`none`).
abbrev pub default_str : ℕ → Option JsonString
default_str time = some (time_string time)

abbrev with_member :
    Option JsonString → MemberInfo → Option (List MemberJson) → Option (List MemberJson)
with_member (some joined_at) m (some rest) = some (
    record {
      player_id = uuid_string m.player_id;
      username = m.username;
      joined_at = joined_at;
      ready = m.ready;
      role = m.role;
    }
    ∷ rest)
with_member _ m _ = none

unfoldable pub dump_members : List MemberInfo → Option (List MemberJson)
dump_members [] = some []
dump_members (m ∷ ms) = with_member (default_str m.joined_at) m (dump_members ms)

abbrev with_times :
    Option JsonString → Option JsonString → Option (List MemberJson) → Party → Option PartyJson
with_times (some created_at) (some updated_at) (some members) p = some (record {
  id = uuid_string p.id;
  leader_id = uuid_string p.leader_id;
  created_at = created_at;
  updated_at = updated_at;
  region = p.region;
  size = p.size;
  max_size = p.max_size;
  status = p.status;
  queue_mode = p.queue_mode;
  team_size = p.team_size;
  avg_mmr = p.avg_mmr;
  members = members;
})
with_times _ _ _ p = none

-- json.dumps(party_data, default=str); the ids are strings already.
unfoldable pub dumps : PartyData → Option PartyJson
unfolding dump_members
dumps d =
    with_times (default_str d.party.created_at) (default_str d.party.updated_at)
      (dump_members d.members) d.party

module _ (server : RedisServer) where
  open server use {State, get, setex, delete, ttl}

  -- `redis = get_redis()`, and one command that writes: whether it went through, and the world.
  unfoldable pub send : (State → State) → World State → Bool × World State
  send f w = elim w.redis [
    | none ↦ (false, w)
    | some s ↦
        let next = record w { faults = later w.faults } in
        if fault_now w.faults then (false, next) else (
          not (fault_now next.faults),
          record next { redis = some (f s); faults = later next.faults },
        )
  ]

  unfoldable pub command : (State → State) → Action State (Unit {0})
  unfolding send
  command f w = (ok tt, (send f w).1)

  -- One command that reads.
  unfoldable pub query : {A : Type 0} → (State → Option A) → Action State (Option A)
  query f w = elim w.redis [
    | none ↦ (ok none, w)
    | some s ↦
        let next = record w { faults = later w.faults } in
        (ok (if fault_now w.faults then none else f s), next)
  ]

  -- cache_party, with its default ttl of 300 seconds; a TypeError of json.dumps is caught
  abbrev cache_json : ℕ → Option PartyJson → Action State (Unit {0})
  cache_json party_id none w = (ok tt, w)
  cache_json party_id (some json) w = command (setex (party party_id) 300 (party_json json)) w

  unfoldable pub cache_party : ℕ → PartyData → Action State (Unit {0})
  unfolding command dumps
  cache_party party_id party_data = cache_json party_id (dumps party_data)

  -- json.loads of what is stored: the object with its strings
  abbrev pub party_of_json : Option Value → Option PartyJson
  party_of_json (some (party_json json)) = some json
  party_of_json _ = none

  unfoldable pub get_cached_party : ℕ → Action State (Option PartyJson)
  unfolding query
  get_cached_party party_id = query (λ s. party_of_json (get (party party_id) s))

  unfoldable pub invalidate_party_cache : ℕ → Action State (Unit {0})
  unfolding command
  invalidate_party_cache party_id = command (delete (party party_id))

  unfoldable pub set_ready_check_timer : ℕ → ℕ → Action State Bool
  unfolding send
  set_ready_check_timer party_id timeout w =
      let (done, w') = send (setex (ready_check party_id) timeout (text (codes "1"))) w in
      (ok done, w')

  -- redis.ttl is negative where there is no key or no expiry; `if ttl > 0`
  abbrev positive : Option ℕ → Option ℕ
  positive none = none
  positive (some zero) = none
  positive (some (suc t)) = some (suc t)

  unfoldable pub get_ready_check_ttl : ℕ → Action State (Option ℕ)
  unfolding query
  get_ready_check_ttl party_id = query (λ s. positive (ttl (ready_check party_id) s))

  unfoldable pub clear_ready_check_timer : ℕ → Action State (Unit {0})
  unfolding command
  clear_ready_check_timer party_id = command (delete (ready_check party_id))

  -- cache_queue_position, with its default ttl of 60 seconds; str(position)
  unfoldable pub cache_queue_position : ℕ → ℕ → Action State (Unit {0})
  unfolding command
  cache_queue_position party_id position =
      command (setex (queue_pos party_id) 60 (text (decimal position)))

  -- int(position) of a text that is there; a ValueError is caught like any exception
  abbrev pub number_of_text : Option Value → Option ℕ
  number_of_text (some (text t)) = parse_int t
  number_of_text _ = none

  unfoldable pub get_cached_queue_position : ℕ → Action State (Option ℕ)
  unfolding query
  get_cached_queue_position party_id = query (λ s. number_of_text (get (queue_pos party_id) s))

  -- track_player_session, with its default ttl of an hour
  unfoldable pub track_player_session : ℕ → ℕ → Action State (Unit {0})
  unfolding command
  track_player_session player_id party_id =
      command (setex (player_session player_id) 3600 (id_text party_id))

  abbrev pub id_of_text : Option Value → Option ℕ
  id_of_text (some (id_text k)) = some k
  id_of_text _ = none

  unfoldable pub get_player_session : ℕ → Action State (Option ℕ)
  unfolding query
  get_player_session player_id = query (λ s. id_of_text (get (player_session player_id) s))

  unfoldable pub clear_player_session : ℕ → Action State (Unit {0})
  unfolding command
  clear_player_session player_id = command (delete (player_session player_id))
