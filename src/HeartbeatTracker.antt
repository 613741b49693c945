-- ===== src/HeartbeatTracker.antt =====
-- services/api/utils/heartbeat_tracker.py: the last heartbeat of the game server of a match, in
-- Redis. As for the cache, a command that faults changes nothing and a read that faults finds
-- nothing.
pub mod Laws
use matchmaker_platform.Prelude.{
  ℕ, ◌+◌, Bool, true, false, Option, none, some, List, [], ◌∷◌, ◌++◌, is_some,
}
use matchmaker_platform.Text.{Text, codes, decimal, parse_int, split}
use matchmaker_platform.Redis.{Value, text, heartbeat, RedisServer}
use matchmaker_platform.Api.{Action, ◌>>=◌, pure}
use matchmaker_platform.Cache.{command, query}

abbrev pub heartbeat_ttl_seconds : ℕ
heartbeat_ttl_seconds = 30

-- The dictionary of `get_heartbeat`.
pub record Heartbeat : Type 0 where
  pub server_id : Text
  pub active_players : ℕ

-- f"{server_id}:{active_players}"
unfoldable pub heartbeat_value : Text → ℕ → Text
heartbeat_value server_id active_players = server_id ++ (58 ∷ decimal active_players)

-- parts[0] and int(parts[1]), for two parts; a ValueError is caught like any exception
unfoldable pub heartbeat_of_parts : List Text → Option Heartbeat
heartbeat_of_parts (a ∷ b ∷ []) = elim (parse_int b) [
  | none ↦ none
  | some n ↦ some (record { server_id = a; active_players = n })
]
heartbeat_of_parts _ = none

unfoldable pub heartbeat_of : Option Value → Option Heartbeat
unfolding heartbeat_of_parts split
heartbeat_of (some (text t)) = heartbeat_of_parts (split 58 t)
heartbeat_of _ = none

module _ (server : RedisServer) where
  open server use {State, get, setex, delete}

  unfoldable pub track_heartbeat : ℕ → Text → ℕ → Action State (Unit {0})
  unfolding command heartbeat_value
  track_heartbeat match_id server_id active_players = command server (
      setex (heartbeat match_id) heartbeat_ttl_seconds
        (text (heartbeat_value server_id active_players)))

  unfoldable pub get_heartbeat : ℕ → Action State (Option Heartbeat)
  unfolding query heartbeat_of
  get_heartbeat match_id = query server (λ s. heartbeat_of (get (heartbeat match_id) s))

  unfoldable pub is_server_alive : ℕ → Action State Bool
  unfolding get_heartbeat
  is_server_alive match_id = do h ← get_heartbeat match_id; pure (is_some h)

  unfoldable pub clear_heartbeat : ℕ → Action State (Unit {0})
  unfolding command
  clear_heartbeat match_id = command server (delete (heartbeat match_id))
