-- ===== src/Startup.antt =====
-- How the process starts: services/api/config.py (get_settings), services/api/main.py (the CORS guard
-- and the start-up half of lifespan), services/api/utils/nats_client.py (SimpleNatsClient) and
-- start_match_consumer of services/api/consumers/match_consumer.py.
-- `lower` and `strip` are Python's str.lower and str.strip.
pub mod Guards
use matchmaker_platform.Prelude.{
  ℕ, Bool, true, false, not, ◌&&◌, ◌||◌, Option, none, some, List, [], ◌∷◌, if◌then◌else◌,
}
use matchmaker_platform.Text.{Text, codes, split}
use matchmaker_platform.SessionManager.{ServerAllocator, init_server_allocator, same_text}

-- The settings that the start depends on.
pub record Config : Type 0 where
  pub environment : Text
  pub cors_allowed_origins : Text
  pub jwt_secret_key : Text
  pub rate_limit_enabled : Bool

unfoldable pub one_of : Text → List Text → Bool
one_of t [] = false
one_of t (u ∷ us) = same_text t u || one_of t us

-- environment.lower() in ("development", "dev", "test", "testing")
unfoldable pub is_development : (Text → Text) → Config → Bool
unfolding one_of
is_development lower c =
    one_of (lower c.environment)
      (codes "development" ∷ codes "dev" ∷ codes "test" ∷ codes "testing" ∷ [])

abbrev pub default_secret : Text
default_secret = codes "your-secret-key-change-in-production"

-- `none` is the RuntimeError.
unfoldable pub get_settings : (Text → Text) → Config → Option Config
get_settings lower c =
    if not (is_development lower c) && same_text c.jwt_secret_key default_secret
    then none
    else some c

-- [o.strip() for o in ... if o.strip()]
unfoldable pub stripped : (Text → Text) → List Text → List Text
stripped strip [] = []
stripped strip (o ∷ os) =
    let rest = stripped strip os in elim (strip o) [ [] ↦ rest | c ∷ cs ↦ (c ∷ cs) ∷ rest ]

unfoldable pub cors_origins : (Text → Text) → Config → List Text
unfolding stripped split
cors_origins strip c = stripped strip (split 44 c.cors_allowed_origins)

-- _cors_origins == ["*"]
unfoldable pub is_wildcard : List Text → Bool
is_wildcard [] = false
is_wildcard (o ∷ []) = same_text o (codes "*")
is_wildcard (o ∷ p ∷ os) = false

-- The arguments of the middleware.
pub record App : Type 0 where
  pub allow_origins : List Text
  pub allow_credentials : Bool
  pub rate_limited : Bool

unfoldable pub create_app : (Text → Text) → (Text → Text) → Config → Option App
create_app lower strip c =
    let origins = cors_origins strip c in
    if is_wildcard origins && not (is_development lower c)
    then none
    else some (record {
      allow_origins = origins;
      allow_credentials = not (is_wildcard origins);
      rate_limited = c.rate_limit_enabled;
    })

-- SimpleNatsClient: `_client` is None or a client of nats-py, with its `is_connected`. A method gives
-- false where it raises; the Booleans it takes say whether the calls of nats-py work.
pub record SimpleNatsClient : Type 0 where
  pub client : Option Bool

abbrev pub is_connected : SimpleNatsClient → Bool
is_connected c = elim c.client [ none ↦ false | some connected ↦ connected ]

unfoldable pub connect_nats : Bool → SimpleNatsClient → Bool × SimpleNatsClient
connect_nats works c = if is_connected c then (true, c) else (works, record { client = some works })

unfoldable pub disconnect_nats : Bool → SimpleNatsClient → Bool × SimpleNatsClient
disconnect_nats works c =
    if is_connected c
    then (if works then (true, record { client = none }) else (false, c))
    else (true, c)

unfoldable pub publish_nats : Bool → Bool → SimpleNatsClient → Bool × SimpleNatsClient
unfolding connect_nats
publish_nats connects works c =
    let (ready, c') = if is_connected c then (true, c) else connect_nats connects c in
    (ready && works, c')

-- What a NATS client can be asked for.
pub data Method : Type 0 where
  connect disconnect publish ask_connected subscribe : Method

-- The methods that SimpleNatsClient defines.
abbrev pub simple_nats_methods : List Method
simple_nats_methods = connect ∷ disconnect ∷ publish ∷ ask_connected ∷ []

abbrev pub is_subscribe : Method → Bool
is_subscribe subscribe = true
is_subscribe _ = false

unfoldable pub can_subscribe : List Method → Bool
can_subscribe [] = false
can_subscribe (m ∷ ms) = is_subscribe m || can_subscribe ms

-- What start_match_consumer comes to: without the method, `nats_client.subscribe` is an
-- AttributeError.
unfoldable pub start_match_consumer : List Method → Bool → Bool
unfolding can_subscribe
start_match_consumer client works = can_subscribe client && works

-- Which of the servers answer when the process starts.
pub record Answers : Type 0 where
  pub database : Bool
  pub redis : Bool
  pub nats : Bool
  pub subscription : Bool

-- The globals of the modules, and whether match.found messages are consumed.
pub record Running : Type 0 where
  pub app : App
  pub redis : Bool
  pub nats : Bool
  pub nats_client : SimpleNatsClient
  pub consuming : Bool
  pub session_secret : Text
  pub allocator : ServerAllocator

-- `none` is a raise, which ends the process. Redis and NATS are done without; init_nats comes before
-- the consumer starts.
unfoldable pub lifespan : Config → App → Answers → Option Running
unfolding start_match_consumer connect_nats
lifespan c app a =
    let (connected, client) = connect_nats a.nats (record { client = none }) in
    if a.database
    then some (record {
      app = app;
      redis = a.redis;
      nats = connected;
      nats_client = client;
      consuming = connected && start_match_consumer simple_nats_methods a.subscription;
      session_secret = c.jwt_secret_key;
      allocator = init_server_allocator (codes "game.example.com") 7777;
    })
    else none

-- The other half of lifespan: what it raises is logged only.
unfoldable pub shut_down : Bool → Running → Running
unfolding disconnect_nats
shut_down works r = record r { nats_client = (disconnect_nats works r.nats_client).1 }

-- Importing the modules, and then the start of the server.
unfoldable pub start : (Text → Text) → (Text → Text) → Config → Answers → Option Running
start lower strip c a = elim (get_settings lower c) [
  | none ↦ none
  | some settings ↦ elim (create_app lower strip settings) [
    | none ↦ none
    | some app ↦ lifespan settings app a
  ]
]
