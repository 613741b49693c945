-- ===== src/Party/Response.antt =====
-- PartyResponse of services/api/models/schemas.py, made of a cached object. pydantic, which reads a
-- time from the text that `str` gives, is not part of the program: its validation is written out for
-- the two kinds of strings that such an object has.
use matchmaker_platform.Prelude.{ℕ, Option, none, some, List, [], ◌∷◌}
use matchmaker_platform.Tables.{MemberInfo}
use matchmaker_platform.Redis.{
  JsonString, uuid_string, time_string, MemberJson, PartyJson, PartyData,
}

-- A ValidationError is `none`.
abbrev parse_time : JsonString → Option ℕ
parse_time (time_string t) = some t
parse_time (uuid_string k) = none

abbrev parse_id : JsonString → Option ℕ
parse_id (uuid_string k) = some k
parse_id (time_string t) = none

abbrev read_member :
    Option ℕ → Option ℕ → MemberJson → Option (List MemberInfo) → Option (List MemberInfo)
read_member (some player_id) (some joined_at) m (some rest) = some (
    record {
      player_id = player_id;
      username = m.username;
      joined_at = joined_at;
      ready = m.ready;
      role = m.role;
    }
    ∷ rest)
read_member _ _ m _ = none

unfoldable pub read_members : List MemberJson → Option (List MemberInfo)
read_members [] = some []
read_members (m ∷ ms) =
    read_member (parse_id m.player_id) (parse_time m.joined_at) m (read_members ms)

abbrev read_party :
    Option ℕ
    → Option ℕ
    → Option ℕ
    → Option ℕ
    → Option (List MemberInfo)
    → PartyJson
    → Option PartyData
read_party (some id) (some leader_id) (some created_at) (some updated_at) (some members) j =
    some (record {
      party = record {
        id = id;
        leader_id = leader_id;
        created_at = created_at;
        updated_at = updated_at;
        region = j.region;
        size = j.size;
        max_size = j.max_size;
        status = j.status;
        queue_mode = j.queue_mode;
        team_size = j.team_size;
        avg_mmr = j.avg_mmr;
      };
      members = members;
    })
read_party _ _ _ _ _ j = none

unfoldable pub party_response : PartyJson → Option PartyData
unfolding read_members
party_response j =
    read_party (parse_id j.id) (parse_id j.leader_id) (parse_time j.created_at)
      (parse_time j.updated_at) (read_members j.members) j
