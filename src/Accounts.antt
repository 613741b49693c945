-- ===== src/Accounts.antt =====
-- services/api/routes/auth.py (register, login, refresh) and services/api/utils/dependencies.py
-- (get_current_user, get_optional_user), with the request types of services/api/models/schemas.py.
pub mod Usernames
pub mod Uniqueness
pub mod Identity
pub mod Queries
pub mod Safety
use matchmaker_platform.Prelude.{
  ℕ, ◌*◌, String, Bool, true, false, not, ◌||◌, Option, none, some, List, [], ◌∷◌, ◌++◌, is_some,
  ◌==◌, if◌then◌else◌,
}
use text.Mathlib.Text.{◌==◌ as same_string}
use matchmaker_platform.Prelude.Int.{pos}
use matchmaker_platform.Text.{Text, codes}
use matchmaker_platform.Schema.{Database, Player}
use matchmaker_platform.Tables.{find_player}
use matchmaker_platform.Auth.{
  Jwt, Passwords, Settings, TokenData, Payload, create_access_token, create_refresh_token,
  verify_access_token, verify_refresh_token,
}
use matchmaker_platform.Api.{
  World, Action, Outcome, ok, raise, Error, http, value_error, exception, pure, fail, gets, or_fail,
  fail_if, ◌>>=◌, ◌>>◌, statement, fetch, handler, actions,
}

pub record RegisterRequest : Type 0 where
  pub username : String
  pub email : String
  pub password : String
  pub region : String

pub record LoginRequest : Type 0 where
  pub username : String
  pub password : String

-- AuthResponse, and TokenResponse, which has the tokens only.
pub record AuthResponse (Token : Type 0) : Type 0 where
  pub player_id : ℕ
  pub username : String
  pub email : String
  pub access_token : Token
  pub refresh_token : Token
  pub expires_in : ℕ

pub record TokenResponse (Token : Type 0) : Type 0 where
  pub access_token : Token
  pub refresh_token : Token
  pub expires_in : ℕ

-- SELECT ... FROM game.player WHERE username = $1, and the same for the email
unfoldable pub find_username : String → List Player → Option Player
find_username name [] = none
find_username name (p ∷ ps) = if same_string p.username name then some p else find_username name ps

unfoldable pub find_email : String → List Player → Option Player
find_email email [] = none
find_email email (p ∷ ps) = if same_string p.email email then some p else find_email email ps

-- The columns of game.player that are unique.
pub data UniqueColumn : Type 0 where
  primary_key username_column email_column : UniqueColumn

-- What INSERT INTO game.player ... RETURNING ends in.
pub data Inserted : Type 0 where
  row : Player → Inserted
  violation : UniqueColumn → Player → Inserted

abbrev pub new_player : ℕ → ℕ → RegisterRequest → String → Player
new_player id now request password_hash = record {
  id = id;
  created_at = now;
  email = request.email;
  password_hash = password_hash;
  username = request.username;
  region = request.region;
  mmr = pos 1200;
}

-- The constraint that refuses the row. Where both do, `email_first` says which one PostgreSQL meets
-- first.
abbrev pub conflict : Bool → Player → List Player → Option Inserted
conflict email_first p ps =
    let name = is_some (find_username p.username ps) in
    let email = is_some (find_email p.email ps) in
    if email_first
    then (if email
        then some (violation email_column p)
        else if name
        then some (violation username_column p)
        else none)
    else if name
    then some (violation username_column p)
    else if email
    then some (violation email_column p)
    else none

-- No constraint but those of uniqueness can be violated.
unfoldable pub insert_player : Bool → Player → Database → Option (Inserted × Database)
insert_player email_first p db =
    if is_some (find_player p.id db.players)
    then some (violation primary_key p, db)
    else elim (conflict email_first p db.players) [
      | some v ↦ some (v, db)
      | none ↦ some (row p, record db { players = db.players ++ p ∷ [] })
    ]

-- `needle in text`
abbrev starts_with : Text → Text → Bool
starts_with [] text = true
starts_with (c ∷ cs) [] = false
starts_with (c ∷ cs) (d ∷ ds) = if c == d then starts_with cs ds else false

unfoldable pub is_in : Text → Text → Bool
is_in needle [] = starts_with needle []
is_in needle (c ∷ cs) = starts_with needle (c ∷ cs) || is_in needle cs

-- if "username" in str(e): ... elif "email" in str(e): ... else: ...
unfoldable pub violation_detail : Text → String
unfolding is_in
violation_detail message =
    if is_in (codes "username") message
    then "Username already taken"
    else if is_in (codes "email") message
    then "Email already registered"
    else "Registration failed"

-- not player_id or not username
abbrev pub identity : Payload → Option TokenData
identity p = elim p.sub [
  | none ↦ none
  | some sub ↦ elim p.username [
    | none ↦ none
    | some username ↦ some (record { sub = sub; username = username })
  ]
]

module _ (jwt : Jwt) (settings : Settings) where
  open jwt use {Token}

  abbrev pub auth_response : Player → ℕ → AuthResponse Token
  auth_response user now =
      let token_data : TokenData = record { sub = user.id; username = user.username } in
      record {
        player_id = user.id;
        username = user.username;
        email = user.email;
        access_token = create_access_token jwt settings token_data none now;
        refresh_token = create_refresh_token jwt settings token_data now;
        expires_in = settings.jwt_access_token_expire_minutes * 60;
      }

  abbrev pub token_response : TokenData → ℕ → TokenResponse Token
  token_response token_data now = record {
    access_token = create_access_token jwt settings token_data none now;
    refresh_token = create_refresh_token jwt settings token_data now;
    expires_in = settings.jwt_access_token_expire_minutes * 60;
  }

module _ {S : Type 0} (jwt : Jwt) (settings : Settings) where
  open jwt use {Token}

  module _ (passwords : Passwords) where
    open passwords use {hash, verify}

    -- `message` is str() of the UniqueViolationError for a column and the row; `salt` is the
    -- randomness of the hash, and `new_id` the UUID that PostgreSQL generates.
    unfoldable pub register_answer :
        (UniqueColumn → Player → Text) → Inserted → Action S (AuthResponse Token)
    register_answer message (violation column refused) =
        fail (http 400 (violation_detail (message column refused)))
    register_answer message (row player) = gets (λ w. auth_response jwt settings player w.now)

    unfoldable pub register :
        Bool
        → (UniqueColumn → Player → Text)
        → RegisterRequest
        → ℕ
        → ℕ
        → Action S (AuthResponse Token)
    register email_first message request salt new_id = handler "Registration failed" (do
      password_hash ← or_fail (hash salt request.password) exception
      inserted ←
          statement
            (λ w. insert_player email_first (new_player new_id w.now request password_hash) w.db)
      register_answer message inserted)

    -- not user or not verify_password(request.password, user["password_hash"])
    unfoldable pub check_password : String → Option Player → Action S Player
    check_password password none = fail (http 401 "Invalid username or password")
    check_password password (some user) = do
      valid ← or_fail (verify password user.password_hash) exception
      fail_if (not valid) (http 401 "Invalid username or password")
      pure user

    unfoldable pub login : LoginRequest → Action S (AuthResponse Token)
    login request = handler "Login failed" (do
      found ← fetch (λ db. find_username request.username db.players)
      user ← check_password request.password found
      gets (λ w. auth_response jwt settings user w.now))

  unfoldable pub refresh_token : Token → Action S (TokenResponse Token)
  refresh_token token = handler "Token refresh failed" (do
    verified ← gets (λ w. verify_refresh_token jwt settings w.now token)
    payload ← or_fail verified (http 401 "Invalid or expired refresh token")
    token_data ← or_fail (identity payload) (http 401 "Invalid token payload")
    user ← fetch (λ db. find_player token_data.sub db.players)
    fail_if (not (is_some user)) (http 401 "User not found")
    gets (λ w. token_response jwt settings token_data w.now))

  -- The dependency of the authenticated endpoints; `credentials` is the bearer token, if any.
  unfoldable pub get_current_user : Option Token → Action S Player
  get_current_user credentials = do
    token ← or_fail credentials (http 401 "Not authenticated")
    verified ← gets (λ w. verify_access_token jwt settings w.now token)
    payload ← or_fail verified (http 401 "Invalid or expired token")
    player_id ← or_fail payload.sub (http 401 "Invalid token payload")
    user ← fetch (λ db. find_player player_id db.players)
    or_fail user (http 401 "User not found")

  -- except HTTPException: return None
  abbrev pub none_if_http : Outcome Player → World S → Outcome (Option Player) × World S
  none_if_http (ok user) w = (ok (some user), w)
  none_if_http (raise (http code detail)) w = (ok none, w)
  none_if_http (raise (value_error d)) w = (raise (value_error d), w)
  none_if_http (raise exception) w = (raise exception, w)

  unfoldable pub get_optional_user : Option Token → Action S (Option Player)
  get_optional_user none w = (ok none, w)
  get_optional_user (some token) w =
      let (r, w') = get_current_user (some token) w in none_if_http r w'
