-- ===== src/Api/Effect.antt =====
-- What an action has done to the tables, whether it returned or raised.
use matchmaker_platform.Prelude.{ℕ, ◌≡◌, ◌⊎◌, inl, inr}
use matchmaker_platform.Schema.{Database}
use matchmaker_platform.Api.{World, Outcome, ok, raise}
use matchmaker_platform.Api.Triple.{Ends}

-- Without an exception the tables are changed as `R` says; with one they are that, or unchanged.
abbrev pub IsEffect : {A : Type 0} → (Database → Type 0) → Database → Outcome A → Database → Type 0
IsEffect R before (ok a) after = R after
IsEffect R before (raise e) after = (after ≡ before) ⊎ R after

pub effect :
    {S A : Type 0} (now : ℕ) (R : Database → Type 0) (before : Database) (r : Outcome A)
    (w : World S)
    → Ends now (λ _. R) (λ db. (db ≡ before) ⊎ R db) r w
    → IsEffect R before r w.db
effect now R before (ok a) w h = h.1
effect now R before (raise e) w h = h.1

pub IsEffect-keeps :
    {A : Type 0} (R P : Database → Type 0) (before : Database)
    → P before
    → ((after : Database) → R after → P after)
    → (r : Outcome A) (after : Database) → IsEffect R before r after
    → P after
IsEffect-keeps R P before p k (ok a) after h = k after h
IsEffect-keeps R P before p k (raise e) after h = elim h [
  | inl same ↦ rw same p
  | inr done ↦ k after done
]
