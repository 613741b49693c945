-- ===== src/Auth/Laws.antt =====
-- Tokens of services/api/utils/auth.py: what a token that was created is verified as, and when.
use matchmaker_platform.Prelude.{
  ℕ, ◌+◌, ◌*◌, ◌≡◌, refl, Option, none, some, leb, ltb, ◌&&◌, if◌then◌else◌, inl, inr, Bool-cases,
}
use matchmaker_platform.Auth.{
  Jwt, Settings, TokenData, expire, access_payload, refresh_payload, create_access_token,
  create_refresh_token, verify_access_token, verify_refresh_token,
}

module _ (jwt : Jwt) (settings : Settings) (token_data : TokenData) (issued now : ℕ) where
  open jwt use {decode-encode}

  -- An access token is verified from the time it is issued until it expires, and only as an access
  -- token: as a refresh token it is refused at every time.
  pub verify-create_access_token :
      (expires_delta : Option ℕ)
      → let token = create_access_token jwt settings token_data expires_delta issued in
        (verify_access_token jwt settings now token ≡ (
          if leb issued now && ltb now (expire settings expires_delta issued)
          then some (access_payload settings token_data expires_delta issued)
          else none))
        × (verify_refresh_token jwt settings now token ≡ none)
  unfolding create_access_token verify_access_token verify_refresh_token
  verify-create_access_token expires_delta =
      let p = access_payload settings token_data expires_delta issued in
      let law = decode-encode settings.jwt_secret_key now p in
      elim (Bool-cases (leb issued now && ltb now (expire settings expires_delta issued))) [
        | inl live ↦ rw (law, live) (refl, refl)
        | inr dead ↦ rw (law, dead) (refl, refl)
      ]

  -- A refresh token is verified from the time it is issued for as many days as are set, and only as
  -- a refresh token: as an access token it is refused at every time.
  pub verify-create_refresh_token :
      let token = create_refresh_token jwt settings token_data issued in
      (verify_refresh_token jwt settings now token ≡ (
        if leb issued now && ltb now (issued + settings.jwt_refresh_token_expire_days * 86400)
        then some (refresh_payload settings token_data issued)
        else none))
      × (verify_access_token jwt settings now token ≡ none)
  unfolding create_refresh_token verify_access_token verify_refresh_token
  verify-create_refresh_token =
      let p = refresh_payload settings token_data issued in
      let law = decode-encode settings.jwt_secret_key now p in
      elim (Bool-cases (leb issued now && ltb now p.exp)) [
        | inl live ↦ rw (law, live) (refl, refl)
        | inr dead ↦ rw (law, dead) (refl, refl)
      ]
