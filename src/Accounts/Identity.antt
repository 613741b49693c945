-- ===== src/Accounts/Identity.antt =====
-- Who a bearer token stands for: register, login and refresh of services/api/routes/auth.py, and
-- get_current_user of services/api/utils/dependencies.py.
use matchmaker_platform.Prelude.{
  ℕ, ◌+◌, ◌*◌, ◌<◌, ◌≤◌, ◌≡◌, refl, ap, ◌∙◌, String, Bool, true, false, ◌&&◌, none, some, List, [],
  ◌∷◌, ◌++◌, is_some, ltb, leb, arith, inl, inr, Bool-cases, Option-cases,
}
use text.Mathlib.TextEquality.{eq_iff}
use matchmaker_platform.Text.{Text}
use matchmaker_platform.Schema.{Player}
use matchmaker_platform.Tables.{find_player}
use matchmaker_platform.Auth.{Jwt, Passwords, Settings, TokenData}
use matchmaker_platform.Auth.Laws.{verify-create_access_token, verify-create_refresh_token}
use matchmaker_platform.Api.{World, ok, raise, http, actions, fault_now, later}
use matchmaker_platform.Accounts.{
  RegisterRequest, LoginRequest, AuthResponse, TokenResponse, find_username, find_email,
  UniqueColumn, new_player, insert_player, register, login, refresh_token, token_response,
  get_current_user, check_password, auth_response, register_answer,
}

live :
    (issued now lifetime : ℕ)
    → issued ≤ now
    → now < issued + lifetime
    → (leb issued now && ltb now (issued + lifetime)) ≡ true
live issued now lifetime a b = ground arith

find_player-append :
    (ps : List Player) (p : Player)
    → find_player p.id ps ≡ none
    → find_player p.id (ps ++ p ∷ []) ≡ some p
unfolding find_player
find_player-append [] p h = ground arith
find_player-append (x ∷ ps) p h = ground (arith, find_player-append ps p)

find_username-append :
    (ps : List Player) (p : Player)
    → find_username p.username ps ≡ none
    → find_username p.username (ps ++ p ∷ []) ≡ some p
unfolding find_username
find_username-append [] p h = rw ((eq_iff p.username p.username).1 refl) refl
find_username-append (x ∷ ps) p h = ground (arith, find_username-append ps p)

module _ (jwt : Jwt) (settings : Settings) where
  -- The answer to a request that carries the access token of an account.
  pub get_current_user-access :
      {S : Type 0} (user found : Player) (issued : ℕ) (w : World S)
      → w.faults ≡ []
      → find_player user.id w.db.players ≡ some found
      → issued ≤ w.now
      → w.now < issued + settings.jwt_access_token_expire_minutes * 60
      → (get_current_user jwt settings
          (some (auth_response jwt settings user issued).access_token)
          w).0
        ≡ ok found
  unfolding get_current_user actions
  get_current_user-access user found issued w calm there a b =
      let token_data : TokenData = record { sub = user.id; username = user.username } in
      let v = (verify-create_access_token jwt settings token_data issued w.now none).0 in
      rw (v, live issued w.now (settings.jwt_access_token_expire_minutes * 60) a b, calm, there)
        refl

  -- A refresh token is good for `refresh` only: as the credentials of a request it is refused, at
  -- every time, with the status 401.
  pub get_current_user-refresh :
      {S : Type 0} (user : Player) (issued : ℕ) (w : World S)
      → get_current_user jwt settings
          (some (auth_response jwt settings user issued).refresh_token)
          w
        ≡ (raise (http 401 "Invalid or expired token"), w)
  unfolding get_current_user actions
  get_current_user-refresh user issued w =
      let token_data : TokenData = record { sub = user.id; username = user.username } in
      rw (verify-create_refresh_token jwt settings token_data issued w.now).1 refl

  refreshed :
      {S : Type 0} (user : Player) (issued : ℕ) (w : World S)
      → w.faults ≡ []
      → is_some (find_player user.id w.db.players) ≡ true
      → issued ≤ w.now
      → w.now < issued + settings.jwt_refresh_token_expire_days * 86400
      → (refresh_token jwt settings (auth_response jwt settings user issued).refresh_token w).0
        ≡ ok
            (token_response jwt settings (record { sub = user.id; username = user.username }) w.now)
  unfolding refresh_token actions
  refreshed user issued w calm there a b =
      let token_data : TokenData = record { sub = user.id; username = user.username } in
      let v = (verify-create_refresh_token jwt settings token_data issued w.now).0 in
      rw (v, live issued w.now (settings.jwt_refresh_token_expire_days * 86400) a b, calm, there)
        refl

  -- While no statement fails, an account that still exists gets new tokens for its refresh token,
  -- as long as that is good. Until the new access token expires, a request that carries it is
  -- answered as the account's, by the row that is there then.
  pub refresh_token-get_current_user :
      {S : Type 0} (user found : Player) (issued : ℕ) (w later : World S)
      → w.faults ≡ []
      → is_some (find_player user.id w.db.players) ≡ true
      → issued ≤ w.now
      → w.now < issued + settings.jwt_refresh_token_expire_days * 86400
      → later.faults ≡ []
      → find_player user.id later.db.players ≡ some found
      → w.now ≤ later.now
      → later.now < w.now + settings.jwt_access_token_expire_minutes * 60
      → (tokens : TokenResponse jwt.Token) × ((refresh_token jwt settings
            (auth_response jwt settings user issued).refresh_token
            w).0
          ≡ ok tokens)
        × ((get_current_user jwt settings (some tokens.access_token) later).0 ≡ ok found)
  refresh_token-get_current_user user found issued w later calm there a b still kept c d = (
    token_response jwt settings (record { sub = user.id; username = user.username }) w.now,
    refreshed user issued w calm there a b,
    get_current_user-access user found w.now later still kept c d,
  )

  module _ (passwords : Passwords) (email_first : Bool) (message : UniqueColumn → Player → Text)
      (request : RegisterRequest) (salt new_id : ℕ) (password_hash : String) {S : Type 0}
      (w : World S) (calm : w.faults ≡ [])
      (hashed : passwords.hash salt request.password ≡ some password_hash)
      (name_free : find_username request.username w.db.players ≡ none)
      (email_free : find_email request.email w.db.players ≡ none)
      (id_free : find_player new_id w.db.players ≡ none) where
    abbrev account : Player
    account = new_player new_id w.now request password_hash

    registered : register jwt settings passwords email_first message request salt new_id w ≡ (
      ok (auth_response jwt settings account w.now),
      record w { faults = []; db = record w.db { players = w.db.players ++ account ∷ [] } },
    )
    unfolding register actions insert_player register_answer
    registered = elim (Bool-cases email_first) [
      | inl e ↦ rw (calm, hashed, id_free, e, name_free, email_free) refl
      | inr e ↦ rw (calm, hashed, id_free, e, name_free, email_free) refl
    ]

    abbrev credentials : LoginRequest
    credentials = record { username = request.username; password = request.password }

    logged_in :
        (later : World S) (row : Player)
        → later.faults ≡ []
        → find_username request.username later.db.players ≡ some row
        → row.password_hash ≡ password_hash
        → (login jwt settings passwords credentials later).0
          ≡ ok (auth_response jwt settings row later.now)
    unfolding login actions check_password
    logged_in later row still named kept =
        let right = passwords.verify-hash salt request.password password_hash hashed in
        rw (still, named, kept, right) refl

    -- While no statement fails, a registration under a free name, a free address and an unused id
    -- returns tokens for the new account, which is found afterwards by its name and by its id. At
    -- any time, while the name belongs to an account with the hash that was stored, a login with the
    -- same name and password returns tokens for that account. Until the access token of the
    -- registration expires, and while an account has the id, a request that carries the token is
    -- answered as that account's, by the row that is there then.
    pub register-login-get_current_user :
        (at_login at_request : World S) (row found : Player)
        → at_login.faults ≡ []
        → find_username request.username at_login.db.players ≡ some row
        → row.password_hash ≡ password_hash
        → at_request.faults ≡ []
        → find_player new_id at_request.db.players ≡ some found
        → w.now ≤ at_request.now
        → at_request.now < w.now + settings.jwt_access_token_expire_minutes * 60
        → let answer = auth_response jwt settings account w.now in
          let (r, after) =
            register jwt settings passwords email_first message request salt new_id w in
          (r ≡ ok answer)
          × (find_username request.username after.db.players ≡ some account)
          × (find_player new_id after.db.players ≡ some account)
          × ((login jwt settings passwords credentials at_login).0
              ≡ ok (auth_response jwt settings row at_login.now))
          × ((get_current_user jwt settings (some answer.access_token) at_request).0 ≡ ok found)
    register-login-get_current_user at_login at_request row found still named kept calm' there a b =
        let run = registered in
        let players = ap (λ r. r.1.db.players) run in
        (
          ap (λ r. r.0) run,
          ap (find_username request.username) players
              ∙ find_username-append w.db.players account name_free,
          ap (find_player new_id) players ∙ find_player-append w.db.players account id_free,
          logged_in at_login row still named kept,
          get_current_user-access account found w.now at_request calm' there a b,
        )

  -- Whoever is logged in has given the name of an account and a password that its hash verifies,
  -- and is given the tokens of that account.
  pub login-IsVerified :
      {S : Type 0} (passwords : Passwords) (request : LoginRequest)
      (answer : AuthResponse jwt.Token) (w : World S)
      → (login jwt settings passwords request w).0 ≡ ok answer
      → (user : Player) × (find_username request.username w.db.players ≡ some user)
        × (passwords.verify request.password user.password_hash ≡ some true)
        × (answer ≡ auth_response jwt settings user w.now)
  unfolding login actions check_password
  login-IsVerified passwords request answer w h = elim (Bool-cases (fault_now w.faults)) [
    | inl bad ↦ cc
    | inr good ↦ elim (Bool-cases (fault_now (later w.faults))) [
      | inl lost ↦ cc
      | inr heard ↦ elim (Option-cases (find_username request.username w.db.players)) [
        | inl missing ↦ cc
        | inr (user, found) ↦
            elim (Option-cases (passwords.verify request.password user.password_hash)) [
              | inl broken ↦ cc
              | inr (true, right) ↦ (user, found, right, cc)
              | inr (false, wrong) ↦ cc
            ]
      ]
    ]
  ]
