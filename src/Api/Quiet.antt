-- ===== src/Api/Quiet.antt =====
-- Rules for actions that leave the database and the clock alone.
use matchmaker_platform.Prelude.{ℕ, ◌≡◌, refl, ◌∙◌}
use matchmaker_platform.Schema.{Database}
use matchmaker_platform.Sockets.{Message}
use matchmaker_platform.Api.{World, Outcome, ok, raise, Action, broadcast}
use matchmaker_platform.Api.Triple.{Ends, Triple}

-- An action that touches neither the database nor the clock, and never raises.
pub record Quiet {S A : Type 0} (m : Action S A) : Type 0 where
  pub returns : (w : World S) → (a : A) × ((m w).0 ≡ ok a)
  pub same_db : (w : World S) → (m w).1.db ≡ w.db
  pub same_now : (w : World S) → (m w).1.now ≡ w.now

pub Triple-quiet :
    {S A : Type 0} {now : ℕ} {Pre Exc : Database → Type 0} {m : Action S A}
    → Quiet m
    → Triple now Pre m (λ _. Pre) Exc
Triple-quiet {Pre} {m} k = record {
  at = λ w t h. rw (k.returns w).1 (k.same_now w ∙ t, rw (k.same_db w) h);
}

pub broadcast-Quiet : {S : Type 0} (k : ℕ) (m : Message) → Quiet {S = S} (broadcast k m)
unfolding broadcast
broadcast-Quiet k m = record {
  returns = λ w. (tt, refl);
  same_db = λ w. refl;
  same_now = λ w. refl;
}

-- An action that touches neither the database nor the clock, whether it returns or raises.
pub record Steady {S A : Type 0} (m : Action S A) : Type 0 where
  pub same_db : (w : World S) → (m w).1.db ≡ w.db
  pub same_now : (w : World S) → (m w).1.now ≡ w.now

steady_Ends :
    {S A : Type 0} (now : ℕ) (Pre Exc : Database → Type 0) (w : World S)
    → w.now ≡ now
    → Pre w.db
    → Exc w.db
    → (r : Outcome A) → Ends now (λ _. Pre) Exc r w
steady_Ends now Pre Exc w t h x (ok a) = (t, h)
steady_Ends now Pre Exc w t h x (raise e) = (t, x)

pub Triple-steady :
    {S A : Type 0} {now : ℕ} {Pre Exc : Database → Type 0} {m : Action S A}
    → Steady m
    → ((db : Database) → Pre db → Exc db)
    → Triple now Pre m (λ _. Pre) Exc
Triple-steady {now} {Pre} {Exc} {m} k x = record {
  at = λ w t h.
      steady_Ends now Pre Exc (m w).1 (k.same_now w ∙ t) (rw (k.same_db w) h)
        (rw (k.same_db w) (x w.db h)) (m w).0;
}
