-- ===== src/SessionManager/Lifecycle.antt =====
-- Reachability in the lifecycle of a session: what VALID_TRANSITIONS lets a match go through.
use matchmaker_platform.Prelude.{ℕ, suc, ◌+◌, ◌<◌, ◌≤◌, ◌≡◌, ◌≢◌, ap, true, arith}
use matchmaker_platform.Schema.{SessionStatus, allocating, active, ended, cancelled}
use matchmaker_platform.SessionManager.{can_transition}

-- The states that a session passes through, one accepted transition after another.
pub data Run : SessionStatus → SessionStatus → ℕ → Type 0 where
  here : (s : SessionStatus) → Run s s 0
  step : {s t u : SessionStatus} {n : ℕ} → can_transition s t ≡ true → Run t u n → Run s u (suc n)

abbrev pub steps_left : SessionStatus → ℕ
steps_left allocating = 2
steps_left active = 1
steps_left ended = 0
steps_left cancelled = 0

steps_left-lt : (s t : SessionStatus) → can_transition s t ≡ true → steps_left t + 1 ≤ steps_left s
unfolding can_transition
steps_left-lt allocating t h = ground arith
steps_left-lt active t h = ground arith
steps_left-lt ended t h = ground arith
steps_left-lt cancelled t h = ground arith

Run-le : {s u : SessionStatus} {n : ℕ} → Run s u n → steps_left u + n ≤ steps_left s
Run-le (here s) = omega arith
Run-le (step {s} {t} h r) = omega (arith, steps_left-lt s t h, Run-le r)

steps_left-le : (s : SessionStatus) → steps_left s ≤ 2
steps_left-le allocating = omega arith
steps_left-le active = omega arith
steps_left-le ended = omega arith
steps_left-le cancelled = omega arith

-- The lifecycle is finite: at most two transitions are accepted in a row, and where one is, the
-- session was neither `ended` nor `cancelled` and does not come back to where it started.
pub Run-bounds :
    {s u : SessionStatus} {n : ℕ}
    → Run s u n
    → 0 < n
    → (n ≤ 2) × (s ≢ ended) × (s ≢ cancelled) × (s ≢ u)
Run-bounds {s} {u} {n} r moved =
    let bound = Run-le r in
    (
      omega (arith, steps_left-le s),
      λ e. ground (arith, ap steps_left e),
      λ e. ground (arith, ap steps_left e),
      λ back. ground (arith, ap steps_left back),
    )

-- A session can only end from `active`: the one way from `allocating` to `ended` is through it.
pub can_transition-ended : (s : SessionStatus) → can_transition s ended ≡ true → s ≡ active
unfolding can_transition
can_transition-ended s h = ground arith
