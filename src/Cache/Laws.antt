-- ===== src/Cache/Laws.antt =====
-- What the cache functions leave alone: the tables and the clock. None of them raises.
use matchmaker_platform.Prelude.{
  ◌≡◌, refl, ℕ, Option, none, some, [], if◌then◌else◌, inl, inr, Bool-cases, Option-cases,
}
use matchmaker_platform.Redis.{PartyData, RedisServer}
use matchmaker_platform.Api.{World, ok, fault_now}
use matchmaker_platform.Api.Quiet.{Quiet}
use matchmaker_platform.Cache.{
  send, command, query, dumps, cache_party, get_cached_party, invalidate_party_cache,
  set_ready_check_timer, clear_ready_check_timer, track_player_session, clear_player_session,
}

module _ (server : RedisServer) where
  open server use {State}

  send_same :
      (f : State → State) (w : World State)
      → ((send server f w).1.db ≡ w.db) × ((send server f w).1.now ≡ w.now)
  unfolding send
  send_same f w = elim (Option-cases w.redis) [
    | inl off ↦ rw (off, send) (refl, refl)
    | inr (s, on) ↦ elim (Bool-cases (fault_now w.faults)) [
      | inl b ↦ rw (on, b, send) (refl, refl)
      | inr b ↦ rw (on, b, send) (refl, refl)
    ]
  ]

  pub command-Quiet : (f : State → State) → Quiet (command server f)
  unfolding command
  command-Quiet f = record {
    returns = λ w. (tt, refl);
    same_db = λ w. (send_same f w).0;
    same_now = λ w. (send_same f w).1;
  }

  query-Quiet : {A : Type 0} (f : State → Option A) → Quiet (query server f)
  unfolding query
  query-Quiet f = record {
    returns = λ w. elim (Option-cases w.redis) [
      | inl off ↦ (none, rw (off, query))
      | inr (s, on) ↦ (if fault_now w.faults then none else f s, rw (on, query))
    ];
    same_db = λ w. elim (Option-cases w.redis) [
      | inl off ↦ rw (off, query)
      | inr (s, on) ↦ rw (on, query)
    ];
    same_now = λ w. elim (Option-cases w.redis) [
      | inl off ↦ rw (off, query)
      | inr (s, on) ↦ rw (on, query)
    ];
  }

  pub cache_party-Quiet : (k : ℕ) (d : PartyData) → Quiet (cache_party server k d)
  unfolding cache_party
  cache_party-Quiet k d = elim (Option-cases (dumps d)) [
    | inl unfit ↦
        rw (unfit, cache_party)
          record { returns = λ w. (tt, refl); same_db = λ w. refl; same_now = λ w. refl }
    | inr (j, e) ↦ rw (e, cache_party) (command-Quiet _)
  ]

  pub get_cached_party-Quiet : (k : ℕ) → Quiet (get_cached_party server k)
  unfolding get_cached_party
  get_cached_party-Quiet k = query-Quiet _

  pub invalidate_party_cache-Quiet : (k : ℕ) → Quiet (invalidate_party_cache server k)
  unfolding invalidate_party_cache
  invalidate_party_cache-Quiet k = command-Quiet _

  pub clear_ready_check_timer-Quiet : (k : ℕ) → Quiet (clear_ready_check_timer server k)
  unfolding clear_ready_check_timer
  clear_ready_check_timer-Quiet k = command-Quiet _

  pub track_player_session-Quiet : (q k : ℕ) → Quiet (track_player_session server q k)
  unfolding track_player_session
  track_player_session-Quiet q k = command-Quiet _

  pub clear_player_session-Quiet : (q : ℕ) → Quiet (clear_player_session server q)
  unfolding clear_player_session
  clear_player_session-Quiet q = command-Quiet _

  pub set_ready_check_timer-Quiet : (k t : ℕ) → Quiet (set_ready_check_timer server k t)
  unfolding set_ready_check_timer
  set_ready_check_timer-Quiet k t = record {
    returns = λ w. (_, refl);
    same_db = λ w. (send_same _ w).0;
    same_now = λ w. (send_same _ w).1;
  }

  -- With Redis there and no fault, a command goes through and a query is answered.
  pub command-state :
      (f : State → State) (s : State) (w : World State)
      → w.redis ≡ some s
      → w.faults ≡ []
      → ((command server f w).1.redis ≡ some (f s)) × ((command server f w).1.faults ≡ [])
  unfolding command send
  command-state f s w on calm = rw (on, calm, send) (refl, refl)

  pub query-answer :
      {A : Type 0} (f : State → Option A) (s : State) (w : World State)
      → w.redis ≡ some s
      → w.faults ≡ []
      → (query server f w).0 ≡ ok (f s)
  unfolding query
  query-answer f s w on calm = rw (on, calm, query) refl
