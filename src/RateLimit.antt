-- ===== src/RateLimit.antt =====
-- services/api/middleware/rate_limit.py: RateLimitMiddleware. The Redis server is given from
-- outside, here with the time that its keys have left; a client is its IP address, a number.
pub mod Client
pub mod Bound
use matchmaker_platform.Prelude.{
  ℕ, zero, suc, ◌+◌, ◌<◌, ◌≡◌, String, Bool, true, false, not, ◌&&◌, ◌||◌, Option, none, some, List,
  [], ◌∷◌, ◌==◌, leb, if◌then◌else◌,
}
use text.Mathlib.Text.{◌==◌ as same_string}

-- The value of a key, and the seconds until it expires, if it has an expiry.
pub record Counter : Type 0 where
  pub count : ℕ
  pub ttl : Option ℕ

-- INCR keeps the expiry; a missing key is first set to 0, without an expiry.
abbrev pub incremented : Option Counter → Counter
incremented none = record { count = 1; ttl = none }
incremented (some c) = record c { count = c.count + 1 }

-- A key one second later.
abbrev pub aged : Option Counter → Option Counter
aged none = none
aged (some c) = elim c.ttl [
  | none ↦ some c
  | some zero ↦ none
  | some (suc zero) ↦ none
  | some (suc (suc t)) ↦ some (record c { ttl = some (suc t) })
]

-- The commands on the keys "rate_limit:{client_ip}", with their documented effects.
pub record CounterServer : Type 1 where
  pub State : Type 0
  pub get : ℕ → State → Option Counter
  pub setex : ℕ → ℕ → ℕ → State → State
  pub incr : ℕ → State → State
  -- one second passes
  pub elapse : State → State
  pub get-setex :
      (j k t v : ℕ) (s : State)
      → 0 < t
      → get j (setex k t v s)
        ≡ (if k == j then some (record { count = v; ttl = some t }) else get j s)
  pub get-incr :
      (j k : ℕ) (s : State)
      → get j (incr k s) ≡ (if k == j then some (incremented (get k s)) else get j s)
  pub get-elapse : (j : ℕ) (s : State) → get j (elapse s) ≡ aged (get j s)

-- A request, and which of the calls to redis-py raise an exception while it is handled; a
-- write that raises has had no effect. One whose reply is lost ends as one that is answered, since the
-- exception lets the request pass. `client` is `none` where the server knows no address, as behind a
-- Unix socket.
pub record Request : Type 0 where
  pub path : String
  pub client : Option ℕ
  pub from_url_error : Bool
  pub get_error : Bool
  pub write_error : Bool

-- `passed` is call_next(request), `refused` the response with the status 429, and `crashed` an
-- AttributeError of `request.client.host`, outside of the `try` block.
pub data Verdict : Type 0 where
  passed refused crashed : Verdict

abbrev pub window_seconds : ℕ
window_seconds = 60

-- request.url.path in ["/health", "/docs", "/redoc", "/openapi.json"]
unfoldable pub is_exempt : String → Bool
is_exempt path =
    same_string path "/health"
    || same_string path "/docs"
    || same_string path "/redoc"
    || same_string path "/openapi.json"

-- What the middleware does after GET.
pub data Decision : Type 0 where
  open_window count_request refuse : Decision

abbrev pub decide : ℕ → Option Counter → Decision
decide rate_limit none = open_window
decide rate_limit (some c) = if leb rate_limit c.count then refuse else count_request

module _ (server : CounterServer) where
  open server use {State, get, setex, incr, elapse}

  -- `redis_client` is true once the client has been made.
  pub record Middleware : Type 0 where
    pub redis_client : Bool
    pub redis : State

  abbrev pub write : Decision → ℕ → State → State
  write open_window ip s = setex ip window_seconds 1 s
  write count_request ip s = incr ip s
  write refuse ip s = s

  abbrev pub verdict : Decision → Verdict
  verdict open_window = passed
  verdict count_request = passed
  verdict refuse = refused

  -- The `try` block: an exception of GET or of the write lets the request pass.
  abbrev pub limit_request : ℕ → Request → Option ℕ → State → Verdict × State
  limit_request rate_limit r none s = (crashed, s)
  limit_request rate_limit r (some client_ip) s =
      let d = decide rate_limit (get client_ip s) in
      if r.get_error
      then (passed, s)
      else (verdict d, if r.write_error then s else write d client_ip s)

  unfoldable pub dispatch : ℕ → Request → Middleware → Verdict × Middleware
  dispatch rate_limit r m =
      if is_exempt r.path
      then (passed, m)
      else if not m.redis_client && r.from_url_error
      then (passed, m)
      else let (v, s) = limit_request rate_limit r r.client m.redis in
        (v, record { redis_client = true; redis = s })
