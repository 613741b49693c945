-- ===== src/RateLimit/Bound.antt =====
-- How many requests of a client the rate limiter (services/api/middleware/rate_limit.py) lets pass.
use native.Mathlib.Nat.{mul-le-mul_left, mul-suc}
use matchmaker_platform.Prelude.{
  ℕ, zero, suc, ◌+◌, ◌-◌, ◌*◌, ◌/◌, ◌<◌, ◌≤◌, ◌≡◌, refl, sym, ap, ◌∙◌, true, false, Option, none,
  some, List, [], ◌∷◌, leb, arith, inl, inr, Bool-cases,
}
use matchmaker_platform.RateLimit.{
  Counter, aged, CounterServer, Verdict, passed, refused, crashed, Middleware, decide, write,
}
use matchmaker_platform.RateLimit.Client.{
  Event, Tick, ask, all_served, own, admit, answers, verdicts, verdicts-answers,
}

unfoldable pub count_passed : List Verdict → ℕ
count_passed [] = 0
count_passed (passed ∷ vs) = suc (count_passed vs)
count_passed (refused ∷ vs) = count_passed vs
count_passed (crashed ∷ vs) = count_passed vs

unfoldable pub seconds : List Event → ℕ
seconds [] = 0
seconds (Event.second ∷ es) = suc (seconds es)
seconds (Event.request r ∷ es) = seconds es

unfoldable ticks : List Tick → ℕ
ticks [] = 0
ticks (Tick.second ∷ ts) = suc (ticks ts)
ticks (ask ∷ ts) = ticks ts

ticks-own : (ip : ℕ) (es : List Event) → ticks (own ip es) ≡ seconds es
unfolding ticks own seconds
ticks-own ip [] = refl
ticks-own ip (Event.second ∷ es) = ap suc (ticks-own ip es)
ticks-own ip (Event.request r ∷ es) = ground (arith, ticks-own ip es)

-- What is left of the window, and the windows that may be opened in `t` seconds.
abbrev left : ℕ → ℕ → Option ℕ → ℕ → ℕ
left rate_limit n none t = rate_limit - n
left rate_limit n (some r) t = (rate_limit - n) + rate_limit * ((t + 60 - r) / 60)

abbrev room : ℕ → Option Counter → ℕ → ℕ
room rate_limit none t = rate_limit + rate_limit * (t / 60)
room rate_limit (some c) t = left rate_limit c.count c.ttl t

-- A key that was set with an expiry has between 1 and 60 seconds left.
abbrev IsWindow : Option Counter → Type 0
IsWindow none = Unit {0}
IsWindow (some c) = elim c.ttl [ none ↦ Unit {0} | some r ↦ (0 < r) × (r ≤ 60) ]

count_passed-cons :
    (v : Verdict) (vs : List Verdict)
    → count_passed (v ∷ vs) ≡ count_passed (v ∷ []) + count_passed vs
unfolding count_passed
count_passed-cons passed vs = omega arith
count_passed-cons refused vs = omega arith
count_passed-cons crashed vs = omega arith

module _ (rate_limit : ℕ) where
  aged-some :
      (n : ℕ) (ttl : Option ℕ) (t : ℕ)
      → let c : Option Counter = some (record { count = n; ttl = ttl }) in
        IsWindow c → (room rate_limit (aged c) t ≤ room rate_limit c (suc t)) × IsWindow (aged c)
  aged-some n none t h = (omega arith, tt)
  aged-some n (some zero) t h = absurd (omega (arith, h.0))
  aged-some n (some (suc zero)) t h =
      let e : (suc t + 60 - suc zero) / 60 ≡ suc (t / 60) = omega arith in
      (rw e (omega (arith, mul-suc rate_limit (t / 60))), tt)
  aged-some n (some (suc (suc r))) t h =
      let e : suc t + 60 - suc (suc r) ≡ t + 60 - suc r = omega (arith, h.1) in
      (rw e (omega arith), (omega arith, omega (arith, h.1)))

  aged-room :
      (c : Option Counter) (t : ℕ)
      → IsWindow c
      → (room rate_limit (aged c) t ≤ room rate_limit c (suc t)) × IsWindow (aged c)
  aged-room none t h =
      let more : t / 60 ≤ suc t / 60 = omega arith in
      (omega (arith, mul-le-mul_left rate_limit more), tt)
  aged-room (some c) t h = aged-some c.count c.ttl t h

  counted-left :
      (n : ℕ) (ttl : Option ℕ) (t : ℕ)
      → leb rate_limit n ≡ false
      → suc (left rate_limit (n + 1) ttl t) ≤ left rate_limit n ttl t
  counted-left n none t h = ground arith
  counted-left n (some r) t h = let below : n < rate_limit = ground arith in omega (arith, below)

  admit-room :
      0 < rate_limit
      → (c : Option Counter) (t : ℕ) → IsWindow c
      → let (v, c') = admit rate_limit c in
        (count_passed (v ∷ []) + room rate_limit c' t ≤ room rate_limit c t) × IsWindow c'
  unfolding count_passed
  admit-room limited none t h =
      let e : t + 60 - 60 ≡ t = omega arith in
      (rw e (omega (arith, limited)), (omega arith, omega arith))
  admit-room limited (some c) t h = elim (Bool-cases (leb rate_limit c.count)) [
    | inl full ↦ rw full (omega arith, h)
    | inr below ↦ rw below (omega (arith, counted-left c.count c.ttl t below), h)
  ]

  answers-room :
      0 < rate_limit
      → (ts : List Tick) (c : Option Counter) → IsWindow c
      → count_passed (answers rate_limit ts c) ≤ room rate_limit c (ticks ts)
  unfolding answers ticks count_passed
  answers-room limited [] c h = omega arith
  answers-room limited (Tick.second ∷ ts) c h =
      let step = aged-room c (ticks ts) h in
      omega (arith, step.0, answers-room limited ts (aged c) step.1)
  answers-room limited (ask ∷ ts) c h =
      let (v, c') = admit rate_limit c in
      let step = admit-room limited c (ticks ts) h in
      let rest = answers-room limited ts c' step.1 in
      omega (arith, step.0, rest, count_passed-cons v (answers rate_limit ts c'))

module _ (server : CounterServer) (rate_limit ip : ℕ) (limited : 0 < rate_limit) where
  open server use {State, get, incr, elapse, get-incr, get-elapse}

  -- Where the limit is positive, Redis answers, the requests are handled one after the other, and the
  -- client has no counter when they begin: of all its requests in n seconds, at most `rate_limit` pass,
  -- and `rate_limit` more for each whole minute of the n seconds.
  pub count_passed-verdicts :
      (es : List Event) (m : Middleware server)
      → all_served es ≡ true
      → get ip m.redis ≡ none
      → count_passed (verdicts server rate_limit ip es m)
        ≤ rate_limit + rate_limit * (seconds es / 60)
  count_passed-verdicts es m fine fresh =
      rw (verdicts-answers server rate_limit ip es m fine, fresh, sym (ticks-own ip es))
        (answers-room rate_limit limited (own ip es) none tt)

  -- A request of the client has read its counter, which is below the limit, in the last second of the
  -- window, and counts itself only after the key has expired. The key that it makes has no expiry: of
  -- all requests of the client that follow, however much time passes, fewer than `rate_limit` pass,
  -- where Redis answers.
  pub lost_expiry :
      (c : Counter) (es : List Event) (m : Middleware server)
      → get ip m.redis ≡ some c
      → c.ttl ≡ some 1
      → leb rate_limit c.count ≡ false
      → all_served es ≡ true
      → let expired = elapse m.redis in
        let late = write server (decide rate_limit (get ip m.redis)) ip expired in
        count_passed (verdicts server rate_limit ip es (record m { redis = late })) < rate_limit
  lost_expiry c es m e last below fine =
      let gone : get ip (elapse m.redis) ≡ none = rw (get-elapse ip m.redis, e, last) refl in
      let stuck : get ip (incr ip (elapse m.redis)) ≡ some (record { count = 1; ttl = none }) =
        get-incr ip ip (elapse m.redis) ∙ ground (arith, gone) in
      let m' : Middleware server = record m { redis = incr ip (elapse m.redis) } in
      let bound =
        answers-room rate_limit limited (own ip es) (some (record { count = 1; ttl = none })) tt in
      rw (e, below, verdicts-answers server rate_limit ip es m' fine, stuck)
        (omega (arith, bound, limited))
