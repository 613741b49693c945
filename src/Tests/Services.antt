-- ===== src/Tests/Services.antt =====
-- The theorems on allocator, tokens, cache, heartbeats and connections at concrete values.
use mathlib.Core.List.Perm
use matchmaker_platform.Prelude.{
  ℕ, ◌≤◌, ◌≡◌, refl, ◌≢◌, ◌↔◌, true, ◌&&◌, ◌||◌, not, ◌==◌, none, some, List, [], ◌∷◌, ◌++◌, arith,
  String, ◌%◌, if◌then◌else◌,
}
use matchmaker_platform.Text.{Text, codes, decimal}
use matchmaker_platform.Schema.{allocating, active, ended, cancelled}
use matchmaker_platform.Party.Response.{party_response}
use matchmaker_platform.Redis.{PartyData, PartyJson}
use matchmaker_platform.Redis.Memory.{memory}
use matchmaker_platform.Api.{ok}
use matchmaker_platform.SessionManager.{
  ServerAllocator, init_server_allocator, allocate_server, deallocate_server, lookup_server,
  is_ascii, generate_session_token, verify_session_token, can_transition,
}
use matchmaker_platform.SessionManager.Allocator.{
  allocate_all, AreNew, Distinct, allocate_all-Distinct, allocate-deallocate_reuses,
}
use matchmaker_platform.SessionManager.Token.{verify_session_token_iff}
use matchmaker_platform.SessionManager.Lifecycle.{Run, Run-bounds}
use matchmaker_platform.Cache.{
  cache_party, get_cached_party, invalidate_party_cache, cache_queue_position,
  get_cached_queue_position,
}
use matchmaker_platform.Cache.RoundTrip.{
  get_cached_party-cache_party, get_cached_queue_position-cache,
}
use matchmaker_platform.HeartbeatTracker.{track_heartbeat, get_heartbeat}
use matchmaker_platform.HeartbeatTracker.Laws.{get_heartbeat-track, get_heartbeat-track_colon}
use matchmaker_platform.Sockets.{
  Link, connected, closed, queue_left, ConnectionManager, connect, disconnect, broadcast_to_party,
  in_set,
}
use matchmaker_platform.Sockets.Laws.{
  members, Reaches, broadcast_to_party-Reaches, connect_iff-disconnect_iff,
}
use matchmaker_platform.Party.{new_party}
use matchmaker_platform.Tests.{no_parties, world, hmac}

abbrev fresh_allocator : ServerAllocator
fresh_allocator = init_server_allocator (codes "example.com") 7777

abbrev two_matches : List (ℕ × String × String)
two_matches = (7, "us-west", "ranked") ∷ (8, "us-west", "casual") ∷ []

two_new : AreNew two_matches fresh_allocator
unfolding init_server_allocator lookup_server allocate_server
two_new = (refl, (refl, tt))

allocate_all-Distinct_example : Distinct (allocate_all two_matches fresh_allocator)
allocate_all-Distinct_example = allocate_all-Distinct two_matches fresh_allocator two_new

not_served : (m : ℕ) → lookup_server m fresh_allocator.allocated_servers ≡ none
unfolding init_server_allocator lookup_server
not_served m = refl

allocate-deallocate_reuses_example :
    let (b, _) = allocate_server 7 "us-west" "ranked" fresh_allocator in
    let (c, running) = allocate_server 8 "us-west" "ranked" b in
    let (d, handed_out) = allocate_server 9 "us-west" "ranked" (deallocate_server 7 c) in
    (handed_out ≡ running)
    × (lookup_server 8 d.allocated_servers ≡ some running)
    × (lookup_server 9 d.allocated_servers ≡ some running)
allocate-deallocate_reuses_example =
    allocate-deallocate_reuses 7 8 9 "us-west" "ranked" fresh_allocator (λ e. omega (arith, e))
      (λ e. omega (arith, e)) (not_served 7) (not_served 8)

-- A digest in ASCII, which the seven lower bits of the message stand in for.
unfoldable seven_bits : Text → Text
seven_bits [] = []
seven_bits (x ∷ a) = x % 128 ∷ seven_bits a

seven_bits-ascii : (a : Text) → is_ascii (seven_bits a) ≡ true
unfolding is_ascii seven_bits
seven_bits-ascii [] = refl
seven_bits-ascii (x ∷ a) = ground (arith, seven_bits-ascii a)

abbrev digest : Text → Text → Text
digest key message = seven_bits (hmac key message)

verify_session_token_iff_example :
    (verify_session_token digest decimal (some (codes "secret")) 7 (2 ∷ 1 ∷ []) (codes "token")
      ≡ some true)
    ↔ (generate_session_token digest decimal (some (codes "secret")) 7 (1 ∷ 2 ∷ [])
        ≡ some (codes "token"))
verify_session_token_iff_example =
    verify_session_token_iff digest decimal 7 (λ key message. seven_bits-ascii (hmac key message))
      (codes "secret") (codes "token") (Perm.swap 2 1 [])

allocating_active : can_transition allocating active ≡ true
unfolding can_transition
allocating_active = refl

active_ended : can_transition active ended ≡ true
unfolding can_transition
active_ended = refl

abbrev two : ℕ
two = 2

Run-bounds_example :
    (two ≤ 2) × (allocating ≢ ended) × (allocating ≢ cancelled) × (allocating ≢ ended)
Run-bounds_example =
    Run-bounds (Run.step allocating_active (Run.step active_ended (Run.here ended))) (omega arith)

abbrev cached : PartyData
cached = record { party = new_party 10 0 1 "us-west" 2; members = [] }

get_cached_party-cache_party_example :
    ((json : PartyJson) × ((get_cached_party memory 10
          (cache_party memory 10 cached (world no_parties)).1).0
        ≡ ok (some json))
      × (party_response json ≡ some cached))
    × ((get_cached_party memory 10 (invalidate_party_cache memory 10 (world no_parties)).1).0
        ≡ ok none)
get_cached_party-cache_party_example =
    get_cached_party-cache_party memory 10 cached (λ k. none) (world no_parties) refl refl

get_cached_queue_position-cache_example :
    (get_cached_queue_position memory 10 (cache_queue_position memory 10 42 (world no_parties)).1).0
    ≡ ok (some 42)
get_cached_queue_position-cache_example =
    get_cached_queue_position-cache memory 10 42 (λ k. none) (world no_parties) refl refl

get_heartbeat-track_example :
    (get_heartbeat memory 7 (track_heartbeat memory 7 (codes "s1") 2 (world no_parties)).1).0
    ≡ ok (some (record { server_id = codes "s1"; active_players = 2 }))
get_heartbeat-track_example =
    get_heartbeat-track memory 7 (codes "s1") 2 (λ k. none) (world no_parties) refl refl
      (λ e. omega (arith, e), (λ e. omega (arith, e), tt))

get_heartbeat-track_colon_example :
    (get_heartbeat memory 7
      (track_heartbeat memory 7 (codes "host" ++ 58 ∷ codes "7777") 2 (world no_parties)).1).0
    ≡ ok none
get_heartbeat-track_colon_example =
    get_heartbeat-track_colon memory 7 (codes "host") (codes "7777") 2 (λ k. none)
      (world no_parties) refl refl

abbrev two_open : ConnectionManager
two_open = record {
  party_connections = (10, 1 ∷ 2 ∷ []) ∷ [];
  connection_players = (1, 1) ∷ (2, 2) ∷ [];
}

abbrev only_first : ℕ → Link
only_first x = if x == 1 then connected else closed

broadcast_to_party-Reaches_example :
    Reaches only_first 10 two_open 2 10 (broadcast_to_party only_first 10 (queue_left 10) two_open)
broadcast_to_party-Reaches_example =
    broadcast_to_party-Reaches only_first 10 (queue_left 10) two_open 2 10

connect_iff-disconnect_iff_example :
    (in_set 3 (members 10 (connect 3 10 3 two_open))
      ≡ (((10 == 10) && (3 == 3)) || in_set 3 (members 10 two_open)))
    × (in_set 3 (members 10 (disconnect 3 10 two_open))
        ≡ (not ((10 == 10) && (3 == 3)) && in_set 3 (members 10 two_open)))
connect_iff-disconnect_iff_example = connect_iff-disconnect_iff 3 10 3 10 3 two_open
