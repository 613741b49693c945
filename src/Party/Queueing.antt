-- ===== src/Party/Queueing.antt =====
-- toggle_ready, enter_queue and leave_queue, statement by statement; none runs in a transaction.
use matchmaker_platform.Prelude.{ℕ, Bool, not, Option, none, some, ◌==◌}
use matchmaker_platform.Prelude.Int.{ℤ}
use matchmaker_platform.Schema.{Database, Player, Party, idle, queueing}
use matchmaker_platform.Tables.{
  find_party, toggle_member, ready_of, count_members, count_ready, not_ready_names, member_mmrs,
  average,
}
use matchmaker_platform.Sockets.{member_ready, queue_entered, queue_left}
use matchmaker_platform.Redis.{PartyData, RedisServer}
use matchmaker_platform.Api.{
  Action, http, pure, or_fail, fail_if, ◌>>=◌, ◌>>◌, statement, fetch, execute, handler, broadcast,
}
use matchmaker_platform.Cache.{
  cache_party, invalidate_party_cache, set_ready_check_timer, clear_ready_check_timer,
}
use matchmaker_platform.Events.{publish_queue_enter, publish_queue_leave}
use matchmaker_platform.Party.{
  QueueRequest, ReadyCheck, set_party, touch, is_queueing, mode_or_unknown,
}
use matchmaker_platform.Party.Membership.{get_party_with_members, membership}

-- SET status = 'queueing', queue_mode = $2, team_size = $3, avg_mmr = $4
abbrev pub enqueue : QueueRequest → Option ℤ → ℕ → Party → Party
enqueue request avg now p = record p {
  status = queueing;
  queue_mode = some request.mode;
  team_size = some request.team_size;
  avg_mmr = avg;
  updated_at = now;
}

-- SET status = 'idle', queue_mode = NULL, team_size = NULL
abbrev pub dequeue : ℕ → Party → Party
dequeue now p = record p { status = idle; queue_mode = none; team_size = none; updated_at = now }

-- UPDATE ... RETURNING ready, on the row of the player, if there is one
abbrev pub toggled : ℕ → ℕ → Database → Option Bool × Database
toggled k q db =
    let ms = toggle_member k q db.party_members in
    (ready_of k q ms, record db { party_members = ms })

-- SELECT COUNT(*) as total, COUNT(*) FILTER (WHERE ready = TRUE)
abbrev pub ready_stats : ℕ → Database → ℕ × ℕ
ready_stats k db = (count_members k db.party_members, count_ready k db.party_members)

module _ {S : Type 0} where
  unfoldable pub toggle_returning : ℕ → ℕ → Action S (Option Bool)
  toggle_returning party_id player_id = statement (λ w. some (toggled party_id player_id w.db))

  -- The statements of `enter_queue`, and the party as it was read first.
  unfoldable pub enqueue_rows : ℕ → QueueRequest → Player → Action S (Party × Option ℤ)
  enqueue_rows party_id request user = do
    found ← fetch (λ db. find_party party_id db.parties)
    p ← or_fail found (http 404 "Party not found")
    fail_if (not (p.leader_id == user.id)) (http 403 "Only party leader can queue")
    counts ← fetch (ready_stats party_id)
    fail_if (not (counts.1 == counts.0)) (http 400 "All members must be ready before queueing")
    avg ← fetch (λ db. average (member_mmrs party_id db.players db.party_members))
    execute (λ w. set_party party_id (enqueue request avg w.now) w.db)
    pure (p, avg)

  -- The statements of `leave_queue`, and the party as it was read first.
  unfoldable pub dequeue_rows : ℕ → Player → Action S Party
  dequeue_rows party_id user = do
    found ← fetch (λ db. find_party party_id db.parties)
    p ← or_fail found (http 404 "Party not found")
    fail_if (not (p.leader_id == user.id)) (http 403 "Only party leader can leave queue")
    fail_if (not (is_queueing p.status)) (http 400 "Party is not in queue")
    execute (λ w. set_party party_id (dequeue w.now) w.db)
    pure p

module _ (server : RedisServer) where
  open server use {State}

  unfoldable pub toggle_ready : ℕ → Player → Action State ReadyCheck
  toggle_ready party_id user = handler "Failed to toggle ready status" (do
    result ← toggle_returning party_id user.id
    is_ready ← or_fail result (http 404 "Player is not in this party")
    counts ← fetch (ready_stats party_id)
    names ← fetch (λ db. not_ready_names party_id db.players db.party_members)
    execute (λ w. set_party party_id (touch w.now) w.db)
    broadcast party_id (member_ready party_id user.id user.username is_ready)
    invalidate_party_cache server party_id
    pure (record {
      party_id = party_id;
      ready_count = counts.1;
      total_count = counts.0;
      all_ready = counts.1 == counts.0;
      not_ready_players = names;
    }))

  unfoldable pub enter_queue : ℕ → QueueRequest → Player → Action State PartyData
  enter_queue party_id request user = handler "Failed to enter queue" (do
    (p, avg) ← enqueue_rows party_id request user
    publish_queue_enter party_id request.mode request.team_size avg p.region p.size
    broadcast party_id (queue_entered party_id request.mode request.team_size)
    invalidate_party_cache server party_id
    set_ready_check_timer server party_id 30
    party_data ← get_party_with_members party_id
    cache_party server party_id party_data
    pure party_data)

  unfoldable pub leave_queue : ℕ → Player → Action State PartyData
  leave_queue party_id user = handler "Failed to leave queue" (do
    p ← dequeue_rows party_id user
    publish_queue_leave party_id (mode_or_unknown p.queue_mode) p.region
    broadcast party_id (queue_left party_id)
    invalidate_party_cache server party_id
    clear_ready_check_timer server party_id
    party_data ← get_party_with_members party_id
    cache_party server party_id party_data
    pure party_data)

-- Opens the endpoints of this file and the actions that they are made of.
unfoldable pub queue_endpoints : Unit {0}
unfolding membership toggle_returning enqueue_rows dequeue_rows toggle_ready enter_queue leave_queue
    set_ready_check_timer clear_ready_check_timer publish_queue_enter publish_queue_leave
queue_endpoints = tt
