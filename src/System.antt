-- ===== src/System.antt =====
-- The API as a whole: requests to its endpoints and match.found messages, served one after another. The transactions of two handlers that
-- are at work at once are in `Party/Interleaving`.
use matchmaker_platform.Prelude.{ℕ, ◌≡◌, refl, Bool, String, Option}
use matchmaker_platform.Text.{Text}
use matchmaker_platform.Schema.{Player}
use matchmaker_platform.Redis.{RedisServer}
use matchmaker_platform.MmrCalculator.{Floats}
use matchmaker_platform.Api.{World, Action, Outcome, ok, raise}
use matchmaker_platform.Api.Triple.{Ends}
use matchmaker_platform.Party.{CreatePartyRequest, IsValidCreate, QueueRequest}
use matchmaker_platform.Party.Capacity.{IsConsistent}
use matchmaker_platform.Party.Membership.{create_party, get_party, join_party, leave_party}
use matchmaker_platform.Party.Queueing.{toggle_ready, enter_queue, leave_queue}
use matchmaker_platform.Party.Safety.{
  Safe, create_party-Safe, get_party-Safe, join_party-Safe, leave_party-Safe,
}
use matchmaker_platform.Party.QueueSafety.{toggle_ready-Safe, enter_queue-Safe, leave_queue-Safe}
use matchmaker_platform.MatchConsumer.{MatchFound, handle_match_found}
use matchmaker_platform.MatchConsumer.Atomicity.{handle_match_found-IsConsistent}
use matchmaker_platform.Session.{
  MatchResultRequest, HeartbeatRequest, get_session, session_heartbeat, submit_match_result,
}
use matchmaker_platform.Session.Safety.{
  get_session-Safe, session_heartbeat-Safe, submit_match_result-Safe,
}
use matchmaker_platform.OrderBy.{OrderBy}
use matchmaker_platform.Auth.{Jwt, Passwords, Settings}
use matchmaker_platform.Accounts.{
  RegisterRequest, LoginRequest, UniqueColumn, register, login, refresh_token, get_current_user,
}
use matchmaker_platform.Accounts.Queries.{
  login-Steady, refresh_token-Steady, get_current_user-Steady,
}
use matchmaker_platform.Accounts.Safety.{
  Steady-IsConsistent, register-IsConsistent, update_my_profile-IsConsistent,
}
use matchmaker_platform.Profile.{UpdateProfileRequest, update_my_profile}
use matchmaker_platform.Leaderboard.{
  played_later, ranked_before, get_match_history, get_leaderboard, get_current_leaderboard,
}
use matchmaker_platform.Leaderboard.Queries.{
  get_match_history-Steady, get_leaderboard-Steady, get_current_leaderboard-Steady,
}

-- What is outside the program.
pub record Environment : Type 1 where
  pub server : RedisServer
  pub jsonb_as_object : Bool
  pub floats : Floats
  pub calendar : ℕ → ℕ × ℕ
  pub hmac : Text → Text → Text
  pub id_text : ℕ → Text
  pub jwt : Jwt
  pub settings : Settings
  pub passwords : Passwords
  pub message : UniqueColumn → Player → Text
  pub by_time : OrderBy played_later
  pub by_rating : OrderBy ranked_before

module _ (env : Environment) where
  open env use {
    server, jsonb_as_object, floats, calendar, hmac, id_text, jwt, settings, passwords, message,
    by_time, by_rating,
  }
  open server use {State}

  -- One request or message, with the world that it leaves; a create request has passed the
  -- constraints of its schema. `between` is whatever happens outside the database: time passes,
  -- faults are drawn, keys expire, sockets open and close.
  pub data Step : World State → World State → Type 0 where
    create :
        (w : World State) (r : CreatePartyRequest) (user : Player) (new_id : ℕ)
        → IsValidCreate r
        → Step w (create_party server r user new_id w).1
    get : (w : World State) (k : ℕ) → Step w (get_party server k w).1
    join : (w : World State) (k : ℕ) (user : Player) → Step w (join_party server k user w).1
    leave : (w : World State) (k : ℕ) (user : Player) → Step w (leave_party server k user w).1
    toggle : (w : World State) (k : ℕ) (user : Player) → Step w (toggle_ready server k user w).1
    enter :
        (w : World State) (k : ℕ) (r : QueueRequest) (user : Player)
        → Step w (enter_queue server k r user w).1
    unqueue : (w : World State) (k : ℕ) (user : Player) → Step w (leave_queue server k user w).1
    found : (w : World State) (m : MatchFound) → Step w (handle_match_found hmac id_text m w).1
    show :
        (w : World State) (k : ℕ) (user : Player)
        → Step w (get_session server jsonb_as_object k user w).1
    beat :
        (w : World State) (k : ℕ) (r : HeartbeatRequest)
        → Step w (session_heartbeat server jsonb_as_object k r w).1
    result :
        (w : World State) (k : ℕ) (r : MatchResultRequest)
        → Step w (submit_match_result server jsonb_as_object floats calendar k r w).1
    register_step :
        (w : World State) (email_first : Bool) (r : RegisterRequest) (salt new_id : ℕ)
        → Step w (register jwt settings passwords email_first message r salt new_id w).1
    login_step : (w : World State) (r : LoginRequest) → Step w (login jwt settings passwords r w).1
    refresh : (w : World State) (t : jwt.Token) → Step w (refresh_token jwt settings t w).1
    authenticate :
        (w : World State) (c : Option jwt.Token) → Step w (get_current_user jwt settings c w).1
    profile :
        (w : World State) (r : UpdateProfileRequest) (user : Player)
        → Step w (update_my_profile r user w).1
    history :
        (w : World State) (q : Option ℕ) (mode : Option String) (page page_size : ℕ) (user : Player)
        → Step w (get_match_history by_time jsonb_as_object q mode page page_size user w).1
    ranking_of :
        (w : World State) (season : Text) (page page_size : ℕ)
        → Step w (get_leaderboard floats by_rating season page page_size w).1
    current_ranking :
        (w : World State) (page page_size : ℕ)
        → Step w (get_current_leaderboard floats by_rating calendar page page_size w).1
    between : (w w' : World State) → w'.db ≡ w.db → Step w w'

  pub data Reach (start : World State) : World State → Type 0 where
    here : Reach start start
    next : {w w' : World State} → Reach start w → Step w w' → Reach start w'

  ends :
      (now : ℕ) {A : Type 0} (r : Outcome A) (w : World State)
      → Ends now (λ _. IsConsistent) IsConsistent r w
      → IsConsistent w.db
  ends now (ok a) w h = h.1
  ends now (raise e) w h = h.1

  Safe-at :
      {A : Type 0} (m : Action State A)
      → Safe m
      → (w : World State) → IsConsistent w.db
      → IsConsistent (m w).1.db
  Safe-at m safe w h = ends w.now (m w).0 (m w).1 ((safe w.now).at w refl h)

  Step-IsConsistent : {w w' : World State} → Step w w' → IsConsistent w.db → IsConsistent w'.db
  Step-IsConsistent (create w r user new_id valid) h =
      Safe-at _ (create_party-Safe server r user new_id valid) w h
  Step-IsConsistent (get w k) h = Safe-at _ (get_party-Safe server k) w h
  Step-IsConsistent (join w k user) h = Safe-at _ (join_party-Safe server k user) w h
  Step-IsConsistent (leave w k user) h = Safe-at _ (leave_party-Safe server k user) w h
  Step-IsConsistent (toggle w k user) h = Safe-at _ (toggle_ready-Safe server k user) w h
  Step-IsConsistent (enter w k r user) h = Safe-at _ (enter_queue-Safe server k r user) w h
  Step-IsConsistent (unqueue w k user) h = Safe-at _ (leave_queue-Safe server k user) w h
  Step-IsConsistent (found w m) h = handle_match_found-IsConsistent hmac id_text m w h
  Step-IsConsistent (show w k user) h =
      Safe-at _ (get_session-Safe server jsonb_as_object k user) w h
  Step-IsConsistent (beat w k r) h =
      Safe-at _ (session_heartbeat-Safe server jsonb_as_object k r) w h
  Step-IsConsistent (result w k r) h =
      Safe-at _ (submit_match_result-Safe server jsonb_as_object floats calendar k r) w h
  Step-IsConsistent (register_step w email_first r salt new_id) h =
      register-IsConsistent jwt settings passwords email_first message r salt new_id w h
  Step-IsConsistent (login_step w r) h =
      Steady-IsConsistent (login-Steady jwt settings passwords r) w h
  Step-IsConsistent (refresh w t) h = Steady-IsConsistent (refresh_token-Steady jwt settings t) w h
  Step-IsConsistent (authenticate w c) h =
      Steady-IsConsistent (get_current_user-Steady jwt settings c) w h
  Step-IsConsistent (profile w r user) h = update_my_profile-IsConsistent r user w h
  Step-IsConsistent (history w q mode page page_size user) h =
      Steady-IsConsistent
        (get_match_history-Steady by_time jsonb_as_object q mode page page_size user) w h
  Step-IsConsistent (ranking_of w season page page_size) h =
      Steady-IsConsistent (get_leaderboard-Steady floats by_rating season page page_size) w h
  Step-IsConsistent (current_ranking w page page_size) h =
      Steady-IsConsistent (get_current_leaderboard-Steady floats by_rating calendar page page_size)
        w h
  Step-IsConsistent (between w w' e) h = rw e h

  -- From a consistent database, whatever requests and messages are served, one after another, in
  -- whatever order and whatever statements fault on the way: no party ever holds more members than
  -- its size says, no size passes the capacity, no member row is without its party, and no player is
  -- in two parties.
  pub Reach-IsConsistent :
      {start w : World State} → IsConsistent start.db → Reach start w → IsConsistent w.db
  Reach-IsConsistent h here = h
  Reach-IsConsistent h (next r s) = Step-IsConsistent s (Reach-IsConsistent h r)
