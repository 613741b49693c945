-- ===== src/Party/Membership.antt =====
-- create_party, get_party, join_party and leave_party, statement by statement. `user` is the row
-- that `get_current_user` has fetched; `new_id` is the UUID that PostgreSQL generates.
use matchmaker_platform.Prelude.{
  ℕ, ◌+◌, ◌-◌, Bool, true, false, not, ◌||◌, Option, none, some, leb, ◌==◌, if◌then◌else◌, is_some,
}
use matchmaker_platform.Schema.{Player, disbanded}
use matchmaker_platform.Tables.{find_party, party_of, is_member, delete_member, members_of}
use matchmaker_platform.Sockets.{member_joined, member_left}
use matchmaker_platform.Redis.{PartyData, PartyJson, RedisServer}
use matchmaker_platform.Api.{
  Action, http, exception, pure, or_fail, fail_if, ◌>>=◌, ◌>>◌, fetch, execute, insert, transaction,
  handler, broadcast, actions,
}
use matchmaker_platform.Cache.{
  cache_party, get_cached_party, invalidate_party_cache, track_player_session, clear_player_session,
}
use matchmaker_platform.Party.Response.{party_response}
use matchmaker_platform.Party.{
  CreatePartyRequest, LeaveResult, party_disbanded, left_party, either_region, insert_party,
  insert_member, set_party, resize, set_status, open_to_join, cannot_join, new_party, new_member,
}

module _ {S : Type 0} where
  -- _get_party_with_members
  unfoldable pub get_party_with_members : ℕ → Action S PartyData
  get_party_with_members party_id = do
    found ← fetch (λ db. find_party party_id db.parties)
    p ← or_fail found (http 404 "Party not found")
    members ← fetch (λ db. members_of party_id db.players db.party_members)
    pure (record { party = p; members = members })

  -- SELECT pg_advisory_xact_lock(hashtext($1)): no table changes, and handlers do not interleave here.
  unfoldable pub lock : ℕ → Action S (Unit {0})
  lock player_id = execute (λ w. w.db)

  -- The transaction of `create_party`.
  unfoldable pub create_rows : CreatePartyRequest → Player → ℕ → Action S (Unit {0})
  create_rows request user new_id = do
    lock user.id
    existing ← fetch (λ db. party_of user.id db.party_members)
    fail_if (is_some existing) (http 400 "Player is already in a party")
    insert (λ w.
        insert_party
          (new_party new_id w.now user.id (either_region request.region user.region)
            request.max_size)
          w.db)
    insert (λ w. insert_member (new_member new_id user.id w.now true) w.db)

  -- The transaction of `join_party`.
  unfoldable pub join_rows : ℕ → Player → Action S (Unit {0})
  join_rows party_id user = do
    lock user.id
    existing ← fetch (λ db. party_of user.id db.party_members)
    fail_if (is_some existing) (http 400 "Player is already in a party")
    found ← fetch (λ db. find_party party_id db.parties)
    p ← or_fail found (http 404 "Party not found")
    fail_if (leb p.max_size p.size) (http 400 "Party is full")
    fail_if (not (open_to_join p.status)) (http 400 (cannot_join p.status))
    insert (λ w. insert_member (new_member party_id user.id w.now false) w.db)
    execute (λ w. set_party party_id (resize (λ n. n + 1) w.now) w.db)

  -- The last statement of `leave_party`: the party is disbanded or one smaller.
  unfoldable pub leave_update : ℕ → Bool → Action S (Unit {0})
  leave_update party_id disband = execute (λ w.
      if disband
      then set_party party_id (set_status disbanded w.now) w.db
      else set_party party_id (resize (λ n. n - 1) w.now) w.db)

  -- The statements of `leave_party`, which run in no transaction, and whether the party is disbanded.
  unfoldable pub leave_rows : ℕ → Player → Action S Bool
  leave_rows party_id user = do
    member ← fetch (λ db. is_member party_id user.id db.party_members)
    fail_if (not member) (http 404 "Player is not in this party")
    found ← fetch (λ db. find_party party_id db.parties)
    p ← or_fail found (http 404 "Party not found")
    execute (λ w. record w.db { party_members = delete_member party_id user.id w.db.party_members })
    leave_update party_id (p.leader_id == user.id || leb p.size 1)
    pure (p.leader_id == user.id || leb p.size 1)

module _ (server : RedisServer) where
  open server use {State}

  unfoldable pub create_party : CreatePartyRequest → Player → ℕ → Action State PartyData
  create_party request user new_id = handler "Failed to create party" (do
    transaction (create_rows request user new_id)
    party_data ← get_party_with_members new_id
    cache_party server new_id party_data
    track_player_session server user.id new_id
    pure party_data)

  -- A cached party is the answer; else the party is fetched and cached.
  unfoldable pub get_or_fetch : ℕ → Option PartyJson → Action State PartyData
  get_or_fetch party_id (some cached) = or_fail (party_response cached) exception
  get_or_fetch party_id none = do
    party_data ← get_party_with_members party_id
    cache_party server party_id party_data
    pure party_data

  unfoldable pub get_party : ℕ → Action State PartyData
  get_party party_id =
      handler "Failed to fetch party"
        (do cached ← get_cached_party server party_id; get_or_fetch party_id cached)

  unfoldable pub join_party : ℕ → Player → Action State PartyData
  join_party party_id user = handler "Failed to join party" (do
    transaction (join_rows party_id user)
    broadcast party_id (member_joined party_id user.id user.username)
    invalidate_party_cache server party_id
    track_player_session server user.id party_id
    party_data ← get_party_with_members party_id
    cache_party server party_id party_data
    pure party_data)

  -- After a disband the endpoint returns at once: nothing is broadcast, and no key is touched.
  unfoldable pub after_leave : ℕ → Player → Bool → Action State LeaveResult
  after_leave party_id user true = pure (party_disbanded party_id)
  after_leave party_id user false = do
    broadcast party_id (member_left party_id user.id user.username)
    invalidate_party_cache server party_id
    clear_player_session server user.id
    pure (left_party party_id)

  unfoldable pub leave_party : ℕ → Player → Action State LeaveResult
  leave_party party_id user =
      handler "Failed to leave party"
        (do disband ← leave_rows party_id user; after_leave party_id user disband)

-- Opens the endpoints of this file and the actions that they are made of.
unfoldable pub membership : Unit {0}
unfolding actions get_party_with_members lock create_rows join_rows leave_update leave_rows
    create_party get_or_fetch get_party join_party after_leave leave_party cache_party
    get_cached_party invalidate_party_cache track_player_session clear_player_session insert_party
    insert_member
membership = tt
