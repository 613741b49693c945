-- ===== src/RateLimit/Client.antt =====
-- What the rate limiter (services/api/middleware/rate_limit.py) is to one client: a counter of its
-- own, whatever the others do.
use matchmaker_platform.Prelude.{
  ℕ, ◌≡◌, refl, ◌∙◌, Bool, true, false, not, ◌&&◌, Option, none, some, List, [], ◌∷◌, ◌==◌, leb,
  if◌then◌else◌, arith, inl, inr, Bool-cases, Option-cases,
}
use matchmaker_platform.RateLimit.{
  Counter, incremented, aged, CounterServer, Request, Verdict, passed, refused, window_seconds,
  is_exempt, Middleware, dispatch, decide, write, verdict,
}

-- What happens to the limiter: a request arrives, or a second passes.
pub data Event : Type 0 where
  second : Event
  request : Request → Event

-- The same for one client.
pub data Tick : Type 0 where
  second ask : Tick

-- Redis answers the request's calls.
abbrev pub is_served : Request → Bool
is_served r = not r.from_url_error && not r.get_error && not r.write_error

unfoldable pub all_served : List Event → Bool
all_served [] = true
all_served (Event.second ∷ es) = all_served es
all_served (Event.request r ∷ es) = is_served r && all_served es

-- A request that the limit applies to.
abbrev pub is_own : ℕ → Request → Bool
is_own ip r =
    elim r.client [ none ↦ false | some client_ip ↦ client_ip == ip ] && not (is_exempt r.path)

unfoldable pub own : ℕ → List Event → List Tick
own ip [] = []
own ip (Event.second ∷ es) = Tick.second ∷ own ip es
own ip (Event.request r ∷ es) = let rest = own ip es in if is_own ip r then ask ∷ rest else rest

-- A request of the client: the first opens a window of a minute, in which `rate_limit` are answered.
abbrev pub admit : ℕ → Option Counter → Verdict × Option Counter
admit rate_limit none = (passed, some (record { count = 1; ttl = some window_seconds }))
admit rate_limit (some c) =
    if leb rate_limit c.count then (refused, some c) else (passed, some (incremented (some c)))

unfoldable pub answers : ℕ → List Tick → Option Counter → List Verdict
answers rate_limit [] c = []
answers rate_limit (Tick.second ∷ ts) c = answers rate_limit ts (aged c)
answers rate_limit (ask ∷ ts) c = let (v, c') = admit rate_limit c in v ∷ answers rate_limit ts c'

module _ (server : CounterServer) (rate_limit ip : ℕ) where
  open server use {State, get, setex, incr, elapse, get-setex, get-incr, get-elapse}

  -- The verdicts on the client's requests, among all that happens.
  unfoldable pub verdicts : List Event → Middleware server → List Verdict
  verdicts [] m = []
  verdicts (Event.second ∷ es) m = verdicts es (record m { redis = elapse m.redis })
  verdicts (Event.request r ∷ es) m =
      let (v, m') = dispatch server rate_limit r m in
      let rest = verdicts es m' in if is_own ip r then v ∷ rest else rest

  decided :
      (s : State)
      → let d = decide rate_limit (get ip s) in
        (verdict server d ≡ (admit rate_limit (get ip s)).0)
        × (get ip (write server d ip s) ≡ (admit rate_limit (get ip s)).1)
  decided s = elim (Option-cases (get ip s)) [
    | inl e ↦ rw e (refl, get-setex ip ip window_seconds 1 s (omega arith) ∙ ground arith)
    | inr (c, e) ↦ elim (Bool-cases (leb rate_limit c.count)) [
      | inl full ↦ rw (e, full) (refl, e)
      | inr room ↦ rw (e, room) (refl, get-incr ip ip s ∙ ground (arith, e))
    ]
  ]

  own_request :
      (r : Request) (m : Middleware server)
      → is_served r ≡ true
      → is_own ip r ≡ true
      → let (v, m') = dispatch server rate_limit r m in
        (v ≡ (admit rate_limit (get ip m.redis)).0)
        × (get ip m'.redis ≡ (admit rate_limit (get ip m.redis)).1)
  unfolding dispatch
  own_request r m fine mine =
      let same : r.client ≡ some ip = ground arith in
      let limited : is_exempt r.path ≡ false = ground arith in
      let made : r.from_url_error ≡ false = ground arith in
      let read : r.get_error ≡ false = ground arith in
      let written : r.write_error ≡ false = ground arith in
      elim (Bool-cases m.redis_client) [
        | inl e ↦ rw (limited, e, read, written, same) (decided m.redis)
        | inr e ↦ rw (limited, e, made, read, written, same) (decided m.redis)
      ]

  other_write :
      (s : State) (k : ℕ)
      → (k == ip) ≡ false
      → get ip (write server (decide rate_limit (get k s)) k s) ≡ get ip s
  other_write s k other = elim (Option-cases (get k s)) [
    | inl e ↦ rw e (get-setex ip k window_seconds 1 s (omega arith) ∙ rw other refl)
    | inr (c, e) ↦ elim (Bool-cases (leb rate_limit c.count)) [
      | inl full ↦ rw (e, full) refl
      | inr room ↦ rw (e, room) (get-incr ip k s ∙ rw other refl)
    ]
  ]

  other_request :
      (r : Request) (m : Middleware server)
      → is_own ip r ≡ false
      → get ip (dispatch server rate_limit r m).1.redis ≡ get ip m.redis
  unfolding dispatch
  other_request r m mine = elim (Option-cases r.client) [
    | inl unknown ↦ ground (arith, unknown)
    | inr (k, known) ↦ ground (arith, known, other_write m.redis k)
  ]

  pub verdicts-answers :
      (es : List Event) (m : Middleware server)
      → all_served es ≡ true
      → verdicts es m ≡ answers rate_limit (own ip es) (get ip m.redis)
  unfolding verdicts answers own all_served
  verdicts-answers [] m h = refl
  verdicts-answers (Event.second ∷ es) m h =
      rw (verdicts-answers es (record m { redis = elapse m.redis }) h, get-elapse ip m.redis) refl
  verdicts-answers (Event.request r ∷ es) m h = elim (Bool-cases (is_own ip r)) [
    | inl mine ↦
        let step = own_request r m (ground arith) mine in
        let rest = verdicts-answers es (dispatch server rate_limit r m).1 (ground arith) in
        rw (mine, rest, step.0, step.1) refl
    | inr other ↦
        let rest = verdicts-answers es (dispatch server rate_limit r m).1 (ground arith) in
        rw (other, rest, other_request r m other) refl
  ]
