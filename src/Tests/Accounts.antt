-- ===== src/Tests/Accounts.antt =====
-- The theorems on tokens, accounts, profiles and party sockets at concrete players.
use text.Mathlib.Text.{◌==◌ as same_string}
use text.Mathlib.TextEquality.{eq_iff}
use matchmaker_platform.Prelude.{
  ℕ, ◌≡◌, refl, ap, sym, String, Bool, true, false, ◌&&◌, Option, none, some, List, [], ◌∷◌, leb,
  ltb, if◌then◌else◌, arith, is_some,
}
use matchmaker_platform.Text.{Text, codes}
use matchmaker_platform.Schema.{Database, Player}
use matchmaker_platform.Tables.{find_player}
use matchmaker_platform.Auth.{
  Jwt, Passwords, Settings, TokenData, Payload, expire, access_payload, verify_access_token,
  verify_refresh_token, create_access_token,
}
use matchmaker_platform.Auth.Laws.{verify-create_access_token}
use matchmaker_platform.Api.{World, ok, raise, http, actions}
use matchmaker_platform.Accounts.{
  RegisterRequest, LoginRequest, TokenResponse, find_username, find_email, UniqueColumn, new_player,
  insert_player, register_answer, register, login, refresh_token, get_current_user, auth_response,
  check_password, violation_detail, is_in,
}
use matchmaker_platform.Accounts.Uniqueness.{
  HasUniqueAccounts, count_username, count_email, register-HasUniqueAccounts,
}
use matchmaker_platform.Accounts.Identity.{
  register-login-get_current_user, login-IsVerified, refresh_token-get_current_user,
}
use matchmaker_platform.Accounts.Usernames.{
  matches_field, all, isalnum, without, username_alphanumeric, is_alphanumeric, any,
  username_alphanumeric-any,
}
use matchmaker_platform.PartySocket.{Frame, ping, bad_json, party_websocket}
use matchmaker_platform.PartySocket.Laws.{IsSocketEnd, party_websocket-IsSocketEnd}
use matchmaker_platform.Redis.Memory.{Entries}
use matchmaker_platform.Tests.{alice, no_parties, one_party, world}

-- A token is its payload, and anybody could write it.
abbrev pub clear_decode : Text → ℕ → Payload → Option Payload
clear_decode key now p = if leb p.iat now && ltb now p.exp then some p else none

abbrev pub clear_jwt : Jwt
clear_jwt = record {
  Token = Payload;
  encode = λ key p. p;
  decode = clear_decode;
  decode-encode = λ key now p. refl;
}

pub own_text :
    (salt : ℕ) (password hashed : String)
    → ◌≡◌ {A = Option String} (some password) (some hashed)
    → ◌≡◌ {A = Option Bool} (some (same_string password hashed)) (some true)
own_text salt password hashed h =
    let same : password ≡ hashed = cc in rw (sym same) (ap some ((eq_iff password password).1 refl))

-- A hash is the password.
abbrev pub clear_passwords : Passwords
clear_passwords = record {
  hash = λ salt password. some password;
  verify = λ password hashed. some (same_string password hashed);
  verify-hash = own_text;
}

abbrev pub settings : Settings
settings = record {
  jwt_secret_key = codes "key";
  jwt_access_token_expire_minutes = 30;
  jwt_refresh_token_expire_days = 7;
}

abbrev alice_data : TokenData
alice_data = record { sub = 1; username = "alice" }

alice_verified :
    let token = create_access_token clear_jwt settings alice_data none 100 in
    (verify_access_token clear_jwt settings 200 token ≡ (
      if leb 100 200 && ltb 200 (expire settings none 100)
      then some (access_payload settings alice_data none 100)
      else none))
    × (verify_refresh_token clear_jwt settings 200 token ≡ none)
alice_verified = verify-create_access_token clear_jwt settings alice_data 100 200 none

abbrev carol : RegisterRequest
carol = record {
  username = "carol";
  email = "carol@example.com";
  password = "correct horse";
  region = "us-west";
}

abbrev pub message : UniqueColumn → Player → Text
message column refused = codes refused.username

-- What PostgreSQL says of an address that is taken, with the row that it quotes.
abbrev taken_address : Text
taken_address =
    codes
      "duplicate key value violates unique constraint player_email_key DETAIL: Key (email)=(username1@example.com) already exists."

wrong_detail : violation_detail taken_address ≡ "Username already taken"
unfolding violation_detail is_in
wrong_detail = refl

abbrev only_alice : Database
only_alice = record no_parties { players = alice ∷ [] }

only_alice-HasUniqueAccounts : HasUniqueAccounts only_alice.players
unfolding count_username count_email
only_alice-HasUniqueAccounts = record {
  one_name = λ name. ground arith;
  one_email = λ email. ground arith;
}

register-HasUniqueAccounts_example :
    HasUniqueAccounts
      (register clear_jwt settings clear_passwords true message carol 5 3
        (world only_alice)).1.db.players
register-HasUniqueAccounts_example =
    register-HasUniqueAccounts clear_jwt settings clear_passwords true message carol 5 3
      (world only_alice) only_alice-HasUniqueAccounts

carol_is_new :
    (find_username "carol" no_parties.players ≡ none)
    × (find_email "carol@example.com" no_parties.players ≡ none)
    × (find_player 3 no_parties.players ≡ none)
unfolding find_username find_email find_player
carol_is_new = (refl, refl, refl)

abbrev later : World Entries
later =
    record (register clear_jwt settings clear_passwords true message carol 5 3
      (world no_parties)).1 { now = 500; faults = [] }

abbrev carol_row : Player
carol_row = new_player 3 100 carol "correct horse"

-- The INSERT is committed and its reply is lost: Carol is told that she is not registered, and is.
lost_reply :
    let (r, w) =
      register clear_jwt settings clear_passwords true message carol 5 3
        (record (world no_parties) { faults = false ∷ true ∷ [] }) in
    (r ≡ raise (http 500 "Registration failed"))
    × (find_username "carol" w.db.players ≡ some carol_row)
unfolding register actions insert_player register_answer find_username find_email find_player
lost_reply = (refl, refl)

-- Carol's token has expired by the time that she logs in.
abbrev at_login : World Entries
at_login = record later { now = 5000 }

carol_is_there :
    (find_username "carol" at_login.db.players ≡ some carol_row)
    × (find_player 3 later.db.players ≡ some carol_row)
unfolding register actions insert_player register_answer find_username find_email find_player
carol_is_there = (refl, refl)

register-login-get_current_user_example :
    let answer = auth_response clear_jwt settings carol_row 100 in
    let (r, after) =
      register clear_jwt settings clear_passwords true message carol 5 3 (world no_parties) in
    (r ≡ ok answer)
    × (find_username "carol" after.db.players ≡ some carol_row)
    × (find_player 3 after.db.players ≡ some carol_row)
    × ((login clear_jwt settings clear_passwords
          (record { username = "carol"; password = "correct horse" })
          at_login).0
        ≡ ok (auth_response clear_jwt settings carol_row 5000))
    × ((get_current_user clear_jwt settings (some answer.access_token) later).0 ≡ ok carol_row)
register-login-get_current_user_example =
    register-login-get_current_user clear_jwt settings clear_passwords true message carol 5 3
      "correct horse" (world no_parties) refl refl carol_is_new.0 carol_is_new.1 carol_is_new.2
      at_login later carol_row carol_row refl carol_is_there.0 refl refl carol_is_there.1
      (omega arith) (omega arith)

abbrev alice_login : LoginRequest
alice_login = record { username = "alice"; password = "" }

alice_logs_in :
    (login clear_jwt settings clear_passwords alice_login (world no_parties)).0
    ≡ ok (auth_response clear_jwt settings alice 100)
unfolding login actions check_password find_username
alice_logs_in = refl

login-IsVerified_example :
    (user : Player) × (find_username "alice" no_parties.players ≡ some user)
    × (clear_passwords.verify "" user.password_hash ≡ some true)
    × (auth_response clear_jwt settings alice 100 ≡ auth_response clear_jwt settings user 100)
login-IsVerified_example =
    login-IsVerified clear_jwt settings clear_passwords alice_login
      (auth_response clear_jwt settings alice 100) (world no_parties) alice_logs_in

alice_there : find_player 1 no_parties.players ≡ some alice
unfolding find_player
alice_there = refl

-- A day later.
abbrev next_day : World Entries
next_day = record (world no_parties) { now = 86500 }

abbrev soon_after : World Entries
soon_after = record (world no_parties) { now = 86600 }

refresh_token-get_current_user_example :
    (tokens : TokenResponse Payload) × ((refresh_token clear_jwt settings
        (auth_response clear_jwt settings alice 100).refresh_token
        next_day).0
      ≡ ok tokens)
    × ((get_current_user clear_jwt settings (some tokens.access_token) soon_after).0 ≡ ok alice)
refresh_token-get_current_user_example =
    refresh_token-get_current_user clear_jwt settings alice alice 100 next_day soon_after refl
      (ap (λ (o : Option Player). is_some o) alice_there) (omega arith) (omega arith) refl
      alice_there (omega arith) (omega arith)

abbrev is_ascii_alnum : ℕ → Bool
is_ascii_alnum c = is_alphanumeric c

dash_matches : matches_field (codes "a_b-c") ≡ true
unfolding matches_field all
dash_matches = refl

underscored_name :
    username_alphanumeric is_ascii_alnum (codes "a_b-c") ≡ any is_alphanumeric (codes "a_b-c")
underscored_name =
    username_alphanumeric-any is_ascii_alnum (λ c h. refl) (codes "a_b-c") dash_matches

-- The field's constraints let a name of hyphens through, and the validator does not.
hyphens :
    (matches_field (codes "---") ≡ true)
    × (username_alphanumeric is_ascii_alnum (codes "---") ≡ false)
unfolding matches_field all username_alphanumeric isalnum without
hyphens = (refl, refl)

abbrev alice_token : Payload
alice_token = create_access_token clear_jwt settings alice_data none 50

abbrev frames : List (Frame Entries)
frames = ping ∷ bad_json ∷ ping ∷ []

party_websocket-IsSocketEnd_example :
    let (r, w') =
      party_websocket 4 clear_jwt settings true 10 alice_token frames (world one_party) in
    IsSocketEnd clear_jwt settings 4 10 alice_token (world one_party) r w'
party_websocket-IsSocketEnd_example =
    party_websocket-IsSocketEnd clear_jwt settings 4 true 10 alice_token frames (world one_party)
