-- ===== src/Accounts/Queries.antt =====
-- login, refresh_token and the dependencies of services/api/routes/auth.py and
-- services/api/utils/dependencies.py write to no table.
use matchmaker_platform.Prelude.{String, Option, none, some, not, is_some}
use matchmaker_platform.Schema.{Player}
use matchmaker_platform.Tables.{find_player}
use matchmaker_platform.Auth.{Jwt, Passwords, Settings, verify_access_token, verify_refresh_token}
use matchmaker_platform.Api.{http, exception}
use matchmaker_platform.Api.Quiet.{Steady}
use matchmaker_platform.Api.Steady.{
  Steady-pure, Steady-fail, Steady-gets, Steady-or_fail, Steady-fetch, Steady-handler,
  Steady-fail_if, Steady-bind,
}
use matchmaker_platform.Accounts.{
  LoginRequest, check_password, login, refresh_token, get_current_user, auth_response,
  token_response, identity,
}

module _ {S : Type 0} (jwt : Jwt) (settings : Settings) where
  check_password-Steady :
      (passwords : Passwords) (password : String) (o : Option Player)
      → Steady {S = S} (check_password jwt settings passwords password o)
  unfolding check_password
  check_password-Steady passwords password none =
      Steady-fail (http 401 "Invalid username or password")
  check_password-Steady passwords password (some user) =
      Steady-bind (Steady-or_fail (passwords.verify password user.password_hash) exception) λ valid.
        Steady-bind (Steady-fail_if (not valid) (http 401 "Invalid username or password"))
          λ _. Steady-pure user

  pub login-Steady :
      (passwords : Passwords) (request : LoginRequest)
      → Steady {S = S} (login jwt settings passwords request)
  unfolding login
  login-Steady passwords request = Steady-handler _ (
      Steady-bind (Steady-fetch _) λ found.
        Steady-bind (check_password-Steady passwords request.password found)
          λ user. Steady-gets (λ w. auth_response jwt settings user w.now))

  pub refresh_token-Steady : (token : jwt.Token) → Steady {S = S} (refresh_token jwt settings token)
  unfolding refresh_token
  refresh_token-Steady token = Steady-handler _ (
      Steady-bind (Steady-gets (λ w. verify_refresh_token jwt settings w.now token)) λ verified.
        Steady-bind (Steady-or_fail verified (http 401 "Invalid or expired refresh token"))
          λ payload.
            Steady-bind (Steady-or_fail (identity payload) (http 401 "Invalid token payload"))
              λ token_data.
                Steady-bind (Steady-fetch (λ db. find_player token_data.sub db.players)) λ user.
                  Steady-bind (Steady-fail_if (not (is_some user)) (http 401 "User not found"))
                    λ _. Steady-gets (λ w. token_response jwt settings token_data w.now))

  pub get_current_user-Steady :
      (credentials : Option jwt.Token) → Steady {S = S} (get_current_user jwt settings credentials)
  unfolding get_current_user
  get_current_user-Steady credentials =
      Steady-bind (Steady-or_fail credentials (http 401 "Not authenticated")) λ token.
        Steady-bind (Steady-gets (λ w. verify_access_token jwt settings w.now token)) λ verified.
          Steady-bind (Steady-or_fail verified (http 401 "Invalid or expired token")) λ payload.
            Steady-bind (Steady-or_fail payload.sub (http 401 "Invalid token payload")) λ player_id.
              Steady-bind (Steady-fetch (λ db. find_player player_id db.players))
                λ user. Steady-or_fail user (http 401 "User not found")
