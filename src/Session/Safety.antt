-- ===== src/Session/Safety.antt =====
-- The endpoints of services/api/routes/session.py and the invariants of parties and leaderboard.
use matchmaker_platform.Prelude.{ℕ, ◌≡◌, refl, Bool, not, is_some, List}
use matchmaker_platform.Schema.{Database, Player, Match, idle}
use matchmaker_platform.MatchTables.Laws.{IsBalanced, upsert_leaderboard-IsBalanced}
use matchmaker_platform.MmrCalculator.{Floats}
use matchmaker_platform.Redis.{RedisServer}
use matchmaker_platform.HeartbeatTracker.Laws.{track_heartbeat-Quiet}
use matchmaker_platform.Party.{set_status}
use matchmaker_platform.Party.Capacity.{IsConsistent, set_party-IsConsistent}
use matchmaker_platform.Party.Safety.{Safe, set_status-KeepsSize}
use matchmaker_platform.Api.{World, Outcome, ok, raise, exception}
use matchmaker_platform.Api.Triple.{
  Triple, Ends, Triple-bind, Triple-pure, Triple-or_fail, Triple-fetch, Triple-weaken,
  Triple-handler, Triple-fail_if,
}
use matchmaker_platform.Api.Quiet.{Triple-quiet}
use matchmaker_platform.Session.{
  MatchResultRequest, HeartbeatRequest, read_metadata, get_session, session_heartbeat, is_active,
  submit_match_result,
}
use matchmaker_platform.Session.Statements.{Kept, write_result-Triple}
use matchmaker_platform.Session.Accepting.{Triple-catch, check_result-Triple}

IsConsistent-Kept : Kept IsConsistent
IsConsistent-Kept = record {
  players = λ db ps h. record { fits = h.fits; one_party = h.one_party };
  match_players = λ db ms h. record { fits = h.fits; one_party = h.one_party };
  history = λ db x h. record { fits = h.fits; one_party = h.one_party };
  leaderboard = λ db season q rating r ne h. record { fits = h.fits; one_party = h.one_party };
  parties = λ db k now h.
      set_party-IsConsistent k (set_status idle now) db (set_status-KeepsSize idle now) h;
}

HasBalance-Kept : Kept (λ db. IsBalanced db.leaderboard)
HasBalance-Kept = record {
  players = λ db ps h. h;
  match_players = λ db ms h. h;
  history = λ db x h. h;
  leaderboard = λ db season q rating r ne h.
      upsert_leaderboard-IsBalanced season q rating r db.leaderboard ne h;
  parties = λ db k now h. h;
}

module _ (server : RedisServer) (jsonb_as_object : Bool) where
  open server use {State}

  pub get_session-Safe : (k : ℕ) (user : Player) → Safe (get_session server jsonb_as_object k user)
  unfolding get_session read_metadata
  get_session-Safe k user now = Triple-handler _ (
      Triple-bind (Triple-fetch _ (λ _ h. h)) λ found.
        Triple-bind (Triple-or_fail found _ (λ _ h. h.0)) λ m.
          Triple-bind (Triple-fetch _ (λ _ h. h.0.0)) λ participant.
            Triple-bind (Triple-fail_if (not (is_some participant)) _ (λ _ h. h.0.0.0)) λ _.
              Triple-bind {Q = λ _. IsConsistent}
                (Triple-bind (Triple-fail_if (not jsonb_as_object) exception (λ _ h. h.0.0.0.0))
                  λ _. Triple-pure m.metadata (λ _ h. h.0.0.0.0.0))
                λ metadata. Triple-pure _ (λ _ h. h))

  pub session_heartbeat-Safe :
      (k : ℕ) (request : HeartbeatRequest)
      → Safe (session_heartbeat server jsonb_as_object k request)
  unfolding session_heartbeat
  session_heartbeat-Safe k request now = Triple-handler _ (
      Triple-bind (Triple-fetch _ (λ _ h. h)) λ found.
        Triple-bind (Triple-or_fail found _ (λ _ h. h.0)) λ m.
          Triple-bind (Triple-fail_if (not (is_active m.status)) _ (λ _ h. h.0.0)) λ _.
            Triple-weaken {Pre' = IsConsistent} {Exc' = IsConsistent}
              (Triple-quiet
                (track_heartbeat-Quiet server k request.server_id request.active_players))
              (λ _ h. h.0.0.0) (λ _ _ h. h) (λ _ h. h))

  module _ (fl : Floats) (calendar : ℕ → ℕ × ℕ) where
    -- Any property that all statements keep, and that does not read the matches, survives a request.
    submit_match_result-Keeps :
        {P : Database → Type 0} (kept : Kept P)
        → ((db : Database) (ms : List Match) → P db → P (record db { matches = ms }))
        → (now k : ℕ) (request : MatchResultRequest) (before : Database) → P before
        → Triple {S = State} now
            (λ db. db ≡ before)
            (submit_match_result server jsonb_as_object fl calendar k request)
            (λ _. P)
            P
    unfolding submit_match_result
    submit_match_result-Keeps {P} kept matches now k request before p = Triple-handler _ (
        Triple-catch (
          Triple-bind
            (Triple-weaken (check_result-Triple jsonb_as_object now k request before) (λ _ h. h)
              (λ _ _ h. h) (λ _ h. rw h p))
            λ metadata.
              write_result-Triple server fl calendar jsonb_as_object now k request metadata kept
                (λ db t h. matches db _ (rw h.0 p)) (λ _ h. rw h.0 p) (λ _ h. h)))

    pub submit_match_result-Safe :
        (k : ℕ) (request : MatchResultRequest)
        → Safe (submit_match_result server jsonb_as_object fl calendar k request)
    submit_match_result-Safe k request now = record {
      at = λ w t h.
          (submit_match_result-Keeps IsConsistent-Kept
              (λ db ms c. record { fits = c.fits; one_party = c.one_party }) now k request w.db
              h).at
            w t refl;
    }

    Ends-IsBalanced :
        (now : ℕ) (r : Outcome (Unit {0})) (w : World State)
        → Ends now (λ _ db. IsBalanced db.leaderboard) (λ db. IsBalanced db.leaderboard) r w
        → IsBalanced w.db.leaderboard
    Ends-IsBalanced now (ok a) w h = h.1
    Ends-IsBalanced now (raise e) w h = h.1

    -- If every row of the leaderboard counts as many games as wins and losses together, then so it
    -- is after any submitted result, accepted or refused, and wherever a statement faults.
    pub submit_match_result-IsBalanced :
        (k : ℕ) (request : MatchResultRequest) (w : World State)
        → IsBalanced w.db.leaderboard
        → IsBalanced
            (submit_match_result server jsonb_as_object fl calendar k request w).1.db.leaderboard
    submit_match_result-IsBalanced k request w h =
        let done = submit_match_result server jsonb_as_object fl calendar k request w in
        Ends-IsBalanced w.now done.0 done.1 (
          (submit_match_result-Keeps HasBalance-Kept (λ db ms b. b) w.now k request w.db h).at w
            refl refl)
