-- ===== src/Auth.antt =====
-- services/api/utils/auth.py: JWT tokens and password hashes. PyJWT and passlib are given from
-- outside; times are whole seconds, as PyJWT rounds the expiry.
pub mod Laws
use matchmaker_platform.Prelude.{
  ℕ, zero, suc, ◌+◌, ◌*◌, ◌≡◌, String, Bool, true, false, ◌&&◌, Option, none, some, leb, ltb,
  if◌then◌else◌,
}
use matchmaker_platform.Text.{Text}

pub data TokenType : Type 0 where
  access refresh : TokenType

-- What a token holds, by its keys; `none` is a missing one, and an empty text counts as missing.
pub record Payload : Type 0 where
  pub sub : Option ℕ
  pub username : Option String
  pub exp : ℕ
  pub iat : ℕ
  pub type : Option TokenType

-- PyJWT: `decode` gives the payload of a token that was encoded under the same key, from the time it
-- was issued until the second before it expires; `none` is a PyJWTError. Nothing is assumed of a
-- token that was made otherwise.
pub record Jwt : Type 1 where
  pub Token : Type 0
  pub encode : Text → Payload → Token
  pub decode : Text → ℕ → Token → Option Payload
  pub decode-encode :
      (key : Text) (now : ℕ) (p : Payload)
      → decode key now (encode key p) ≡ (if leb p.iat now && ltb now p.exp then some p else none)

-- passlib's CryptContext: a hash depends on a random salt, and `none` is an exception.
pub record Passwords : Type 0 where
  pub hash : ℕ → String → Option String
  pub verify : String → String → Option Bool
  pub verify-hash :
      (salt : ℕ) (password hashed : String)
      → hash salt password ≡ some hashed
      → verify password hashed ≡ some true

-- The settings of services/api/config.py that the tokens depend on.
pub record Settings : Type 0 where
  pub jwt_secret_key : Text
  pub jwt_access_token_expire_minutes : ℕ
  pub jwt_refresh_token_expire_days : ℕ

-- token_data: {"sub": player_id, "username": username}
pub record TokenData : Type 0 where
  pub sub : ℕ
  pub username : String

-- now + expires_delta, if there is one; a timedelta of zero is falsy, and negative ones are left out
abbrev pub expire : Settings → Option ℕ → ℕ → ℕ
expire settings none now = now + settings.jwt_access_token_expire_minutes * 60
expire settings (some zero) now = now + settings.jwt_access_token_expire_minutes * 60
expire settings (some (suc delta)) now = now + suc delta

abbrev pub access_payload : Settings → TokenData → Option ℕ → ℕ → Payload
access_payload settings token_data expires_delta now = record {
  sub = some token_data.sub;
  username = some token_data.username;
  exp = expire settings expires_delta now;
  iat = now;
  type = some access;
}

abbrev pub refresh_payload : Settings → TokenData → ℕ → Payload
refresh_payload settings token_data now = record {
  sub = some token_data.sub;
  username = some token_data.username;
  exp = now + settings.jwt_refresh_token_expire_days * 86400;
  iat = now;
  type = some refresh;
}

-- payload if payload and payload.get("type") == expected else None
abbrev pub of_type : TokenType → Option Payload → Option Payload
of_type t none = none
of_type access (some p) = elim p.type [ some access ↦ some p | _ ↦ none ]
of_type refresh (some p) = elim p.type [ some refresh ↦ some p | _ ↦ none ]

module _ (jwt : Jwt) (settings : Settings) where
  open jwt use {Token, encode, decode}

  unfoldable pub create_access_token : TokenData → Option ℕ → ℕ → Token
  create_access_token token_data expires_delta now =
      encode settings.jwt_secret_key (access_payload settings token_data expires_delta now)

  unfoldable pub create_refresh_token : TokenData → ℕ → Token
  create_refresh_token token_data now =
      encode settings.jwt_secret_key (refresh_payload settings token_data now)

  unfoldable pub decode_token : ℕ → Token → Option Payload
  decode_token now token = decode settings.jwt_secret_key now token

  unfoldable pub verify_access_token : ℕ → Token → Option Payload
  unfolding decode_token
  verify_access_token now token = of_type access (decode_token now token)

  unfoldable pub verify_refresh_token : ℕ → Token → Option Payload
  unfolding decode_token
  verify_refresh_token now token = of_type refresh (decode_token now token)
