-- ===== src/HeartbeatTracker/Laws.antt =====
-- Heartbeats as they are read back, and what the tracker leaves alone.
use matchmaker_platform.Prelude.{
  ℕ, ◌<◌, ◌≡◌, refl, ap, ◌∙◌, ◌≢◌, inr, true, none, some, List, [], ◌∷◌, ◌++◌, arith, All, length,
}
use mathlib.Core.List.{append_assoc}
use matchmaker_platform.Text.{Text, split, parse_int, decimal}
use matchmaker_platform.Text.Decimal.{parse_int-decimal, decimal-All}
use matchmaker_platform.Text.Split.{split-pair, length-split-pair}
use matchmaker_platform.Redis.{RedisServer, Value, text, heartbeat, same_key}
use matchmaker_platform.Api.{World, ok}
use matchmaker_platform.Api.Quiet.{Quiet}
use matchmaker_platform.Cache.{command}
use matchmaker_platform.Cache.Laws.{command-Quiet, command-state, query-answer}
use matchmaker_platform.HeartbeatTracker.{
  heartbeat_ttl_seconds, heartbeat_value, heartbeat_of_parts, heartbeat_of, track_heartbeat,
  get_heartbeat, clear_heartbeat,
}

two_parts :
    (a b : Text) (n : ℕ)
    → parse_int b ≡ some n
    → heartbeat_of_parts (a ∷ b ∷ []) ≡ some (record { server_id = a; active_players = n })
unfolding heartbeat_of_parts
two_parts a b n e = rw (e, heartbeat_of_parts) refl

heartbeat_of-pair :
    (server_id : Text) (n : ℕ)
    → All (λ c. c ≢ 58) server_id
    → heartbeat_of (some (text (heartbeat_value server_id n)))
      ≡ some (record { server_id = server_id; active_players = n })
unfolding heartbeat_of heartbeat_value
heartbeat_of-pair server_id n free =
    rw (split-pair 58 server_id (decimal n) free (decimal-All n 58 (inr (omega arith))))
      (two_parts server_id (decimal n) n (parse_int-decimal n))

three_parts : (ts : List Text) → 2 < length ts → heartbeat_of_parts ts ≡ none
unfolding heartbeat_of_parts
three_parts [] h = refl
three_parts (a ∷ []) h = refl
three_parts (a ∷ b ∷ []) h = absurd (omega arith)
three_parts (a ∷ b ∷ c ∷ ts) h = refl

heartbeat_of-colon :
    (a b : Text) (n : ℕ) → heartbeat_of (some (text (heartbeat_value (a ++ 58 ∷ b) n))) ≡ none
unfolding heartbeat_of heartbeat_value
heartbeat_of-colon a b n = rw (append_assoc a (58 ∷ b) (58 ∷ decimal n)) (
    three_parts (split 58 (a ++ 58 ∷ (b ++ 58 ∷ decimal n))) (length-split-pair 58 a b (decimal n)))

module _ (server : RedisServer) where
  open server use {State, get, setex, get-setex}

  pub track_heartbeat-Quiet : (k : ℕ) (s : Text) (n : ℕ) → Quiet (track_heartbeat server k s n)
  unfolding track_heartbeat
  track_heartbeat-Quiet k s n = command-Quiet server _

  pub clear_heartbeat-Quiet : (k : ℕ) → Quiet (clear_heartbeat server k)
  unfolding clear_heartbeat
  clear_heartbeat-Quiet k = command-Quiet server _

  same_heartbeat : (k : ℕ) → same_key (heartbeat k) (heartbeat k) ≡ true
  same_heartbeat k = ground arith

  stored :
      (k : ℕ) (v : Value) (s : State)
      → get (heartbeat k) (setex (heartbeat k) heartbeat_ttl_seconds v s) ≡ some v
  stored k v s =
      rw
        (
          get-setex (heartbeat k) (heartbeat k) heartbeat_ttl_seconds v s (omega arith),
          same_heartbeat k,
        )
        refl

  -- What `get_heartbeat` returns right after `track_heartbeat`.
  read_back :
      (k : ℕ) (server_id : Text) (n : ℕ) (s : State) (w : World State)
      → w.redis ≡ some s
      → w.faults ≡ []
      → (get_heartbeat server k (track_heartbeat server k server_id n w).1).0
        ≡ ok (heartbeat_of (some (text (heartbeat_value server_id n))))
  unfolding track_heartbeat get_heartbeat
  read_back k server_id n s w on calm =
      let v = text (heartbeat_value server_id n) in
      let f = setex (heartbeat k) heartbeat_ttl_seconds v in
      let (there, quiet) = command-state server f s w on calm in
      query-answer server _ (f s) (command server f w).1 there quiet
      ∙ ap (λ x. ok (heartbeat_of x)) (stored k v s)

  -- With Redis there and no fault, a heartbeat that was tracked is read back as it was sent, if the
  -- id of the server has no ':' in it.
  pub get_heartbeat-track :
      (k : ℕ) (server_id : Text) (n : ℕ) (s : State) (w : World State)
      → w.redis ≡ some s
      → w.faults ≡ []
      → All (λ c. c ≢ 58) server_id
      → (get_heartbeat server k (track_heartbeat server k server_id n w).1).0
        ≡ ok (some (record { server_id = server_id; active_players = n }))
  get_heartbeat-track k server_id n s w on calm free =
      rw (read_back k server_id n s w on calm, heartbeat_of-pair server_id n free) refl

  -- With Redis there and no fault, the heartbeat of a server whose id holds a ':', such as
  -- host:port, is not found right after it was tracked.
  pub get_heartbeat-track_colon :
      (k : ℕ) (a b : Text) (n : ℕ) (s : State) (w : World State)
      → w.redis ≡ some s
      → w.faults ≡ []
      → (get_heartbeat server k (track_heartbeat server k (a ++ 58 ∷ b) n w).1).0 ≡ ok none
  get_heartbeat-track_colon k a b n s w on calm =
      rw (read_back k (a ++ 58 ∷ b) n s w on calm, heartbeat_of-colon a b n) refl
