-- ===== src/Startup/Guards.antt =====
-- What holds of a process that has started (services/api/config.py and services/api/main.py).
use matchmaker_platform.Prelude.{
  ◌≡◌, ◌⊎◌, true, false, not, none, some, inl, inr, Bool-cases, arith,
}
use matchmaker_platform.Text.{Text}
use matchmaker_platform.SessionManager.{same_text}
use matchmaker_platform.Startup.{
  Config, is_development, default_secret, get_settings, cors_origins, is_wildcard, create_app,
  can_subscribe, Answers, Running, lifespan, start,
}

-- In development, or with a secret of its own and a list of origins other than the bare wildcard.
abbrev pub IsGuarded : (Text → Text) → (Text → Text) → Config → Type 0
IsGuarded lower strip c =
    (is_development lower c ≡ true)
    ⊎ ((same_text c.jwt_secret_key default_secret ≡ false)
        × (is_wildcard (cors_origins strip c) ≡ false))

module _ (lower strip : Text → Text) (c : Config) (a : Answers) where
  default_refused :
      is_development lower c ≡ false
      → same_text c.jwt_secret_key default_secret ≡ true
      → start lower strip c a ≡ none
  unfolding start get_settings
  default_refused production default = ground (arith, production, default)

  wildcard_refused :
      is_development lower c ≡ false
      → same_text c.jwt_secret_key default_secret ≡ false
      → is_wildcard (cors_origins strip c) ≡ true
      → start lower strip c a ≡ none
  unfolding start get_settings create_app
  wildcard_refused production own wild = ground (arith, production, own, wild)

  guarded : (r : Running) → start lower strip c a ≡ some r → IsGuarded lower strip c
  guarded r h = elim (Bool-cases (is_development lower c)) [
    | inl dev ↦ inl dev
    | inr production ↦ elim (Bool-cases (same_text c.jwt_secret_key default_secret)) [
      | inl default ↦ cc (default_refused production default, h)
      | inr own ↦ elim (Bool-cases (is_wildcard (cors_origins strip c))) [
        | inl wild ↦ cc (wildcard_refused production own wild, h)
        | inr listed ↦ inr (own, listed)
      ]
    ]
  ]

  running :
      (r : Running)
      → start lower strip c a ≡ some r
      → (a.database ≡ true)
        × (r.session_secret ≡ c.jwt_secret_key)
        × (r.app.allow_origins ≡ cors_origins strip c)
        × (r.app.allow_credentials ≡ not (is_wildcard r.app.allow_origins))
        × (r.nats ≡ a.nats)
        × (r.consuming ≡ false)
  unfolding start get_settings create_app lifespan can_subscribe
  running r h = ground arith

-- A process that has started is in development, or has a secret of its own and a list of origins that
-- is not the wildcard alone. Its database answers, its session tokens are keyed by the secret, credentials are allowed
-- but for the bare wildcard, events are published exactly if NATS answered; and whatever answered,
-- no match.found message is consumed.
pub start-IsGuarded :
    (lower strip : Text → Text) (c : Config) (a : Answers) (r : Running)
    → start lower strip c a ≡ some r
    → IsGuarded lower strip c
      × (a.database ≡ true)
      × (r.session_secret ≡ c.jwt_secret_key)
      × (r.app.allow_origins ≡ cors_origins strip c)
      × (r.app.allow_credentials ≡ not (is_wildcard r.app.allow_origins))
      × (r.nats ≡ a.nats)
      × (r.consuming ≡ false)
start-IsGuarded lower strip c a r h =
    let (db, secret, origins, credentials, nats, deaf) = running lower strip c a r h in
    (guarded lower strip c a r h, db, secret, origins, credentials, nats, deaf)
