-- ===== src/Cache/RoundTrip.antt =====
-- services/api/utils/redis_cache.py: what is read after a write.
use matchmaker_platform.Prelude.{
  ℕ, ◌<◌, ◌≡◌, refl, ap, ◌∙◌, true, Option, none, some, List, [], ◌∷◌, arith,
}
use matchmaker_platform.Text.{decimal}
use matchmaker_platform.Text.Decimal.{parse_int-decimal}
use matchmaker_platform.Tables.{MemberInfo}
use matchmaker_platform.Party.Response.{read_members, party_response}
use matchmaker_platform.Redis.{
  RedisServer, PartyData, uuid_string, time_string, MemberJson, PartyJson, Key, party, queue_pos,
  Value, party_json, text, same_key,
}
use matchmaker_platform.Api.{World, ok}
use matchmaker_platform.Cache.{
  command, query, dump_members, dumps, cache_party, get_cached_party, invalidate_party_cache,
  cache_queue_position, get_cached_queue_position, party_of_json, number_of_text,
}
use matchmaker_platform.Cache.Laws.{command-state, query-answer}

same_key_refl : (k : Key) → same_key k k ≡ true
same_key_refl (party a) = ground arith
same_key_refl (Key.ready_check a) = ground arith
same_key_refl (queue_pos a) = ground arith
same_key_refl (Key.player_session a) = ground arith
same_key_refl (Key.heartbeat a) = ground arith

abbrev members_json : List MemberInfo → List MemberJson
members_json [] = []
members_json (m ∷ ms) =
    record {
      player_id = uuid_string m.player_id;
      username = m.username;
      joined_at = time_string m.joined_at;
      ready = m.ready;
      role = m.role;
    }
    ∷ members_json ms

dump_members_lem : (ms : List MemberInfo) → dump_members ms ≡ some (members_json ms)
unfolding dump_members
dump_members_lem [] = refl
dump_members_lem (m ∷ ms) = rw (dump_members_lem ms) refl

read_members-members_json : (ms : List MemberInfo) → read_members (members_json ms) ≡ some ms
unfolding read_members
read_members-members_json [] = refl
read_members-members_json (m ∷ ms) = rw (read_members-members_json ms) refl

-- The object of a party.
abbrev json_of : PartyData → PartyJson
json_of d = record {
  id = uuid_string d.party.id;
  leader_id = uuid_string d.party.leader_id;
  created_at = time_string d.party.created_at;
  updated_at = time_string d.party.updated_at;
  region = d.party.region;
  size = d.party.size;
  max_size = d.party.max_size;
  status = d.party.status;
  queue_mode = d.party.queue_mode;
  team_size = d.party.team_size;
  avg_mmr = d.party.avg_mmr;
  members = members_json d.members;
}

dumps_lem : (d : PartyData) → dumps d ≡ some (json_of d)
unfolding dumps
dumps_lem d = rw (dump_members_lem d.members) refl

party_response-json_of : (d : PartyData) → party_response (json_of d) ≡ some d
unfolding party_response
party_response-json_of d = rw (read_members-members_json d.members) refl

module _ (server : RedisServer) where
  open server use {State, get, setex, delete, get-setex, get-delete}

  -- One command, and a query after it, with Redis there and no fault.
  command-query :
      {A : Type 0} (f : State → State) (g : State → Option A) (s : State) (w : World State)
      → w.redis ≡ some s
      → w.faults ≡ []
      → (query server g (command server f w).1).0 ≡ ok (g (f s))
  command-query f g s w on calm =
      let (there, quiet) = command-state server f s w on calm in
      query-answer server g (f s) (command server f w).1 there quiet

  stored : (k : Key) (t : ℕ) (v : Value) (s : State) → 0 < t → get k (setex k t v s) ≡ some v
  stored k t v s h = rw (get-setex k k t v s h, same_key_refl k) refl

  -- With Redis there and no fault, what the cache returns for a party that was just cached is an
  -- object of strings that PartyResponse reads as that party; and after an invalidation the cache
  -- returns nothing.
  pub get_cached_party-cache_party :
      (k : ℕ) (d : PartyData) (s : State) (w : World State)
      → w.redis ≡ some s
      → w.faults ≡ []
      → ((json : PartyJson) × ((get_cached_party server k (cache_party server k d w).1).0
            ≡ ok (some json))
          × (party_response json ≡ some d))
        × ((get_cached_party server k (invalidate_party_cache server k w).1).0 ≡ ok none)
  unfolding get_cached_party cache_party invalidate_party_cache
  get_cached_party-cache_party k d s w on calm =
      let read : State → Option PartyJson = λ x. party_of_json server (get (party k) x) in
      (
        (
          json_of d,
          rw (dumps_lem d) (
              command-query (setex (party k) 300 (party_json (json_of d))) read s w on calm
              ∙ ap (λ v. ok (party_of_json server v))
                  (stored (party k) 300 (party_json (json_of d)) s (omega arith))),
          party_response-json_of d,
        ),
        command-query (delete (party k)) read s w on calm
            ∙ rw (get-delete (party k) (party k) s, same_key_refl (party k)) refl,
      )

  -- With Redis there and no fault, the queue position of a party that was just cached, in decimal,
  -- is what is read back.
  pub get_cached_queue_position-cache :
      (k n : ℕ) (s : State) (w : World State)
      → w.redis ≡ some s
      → w.faults ≡ []
      → (get_cached_queue_position server k (cache_queue_position server k n w).1).0 ≡ ok (some n)
  unfolding get_cached_queue_position cache_queue_position
  get_cached_queue_position-cache k n s w on calm =
      command-query (setex (queue_pos k) 60 (text (decimal n)))
        (λ x. number_of_text server (get (queue_pos k) x)) s w on calm
      ∙ (ap (λ v. ok (number_of_text server v))
            (stored (queue_pos k) 60 (text (decimal n)) s (omega arith))
          ∙ ap ok (parse_int-decimal n))
