-- ===== src/Api/Steady.antt =====
-- Rules for actions that write to no table: a query reads, and may raise.
use matchmaker_platform.Prelude.{
  String, ◌≡◌, refl, ◌∙◌, Bool, true, false, Option, none, some, inl, inr, Bool-cases,
}
use matchmaker_platform.Schema.{Database}
use matchmaker_platform.Api.{
  World, Error, http, value_error, exception, Outcome, ok, raise, Action, pure, fail, gets, or_fail,
  fail_if, continue, ◌>>=◌, fault_now, later, convert, fetch, handler,
}
use matchmaker_platform.Api.Quiet.{Steady}

module _ {S A : Type 0} where
  pub Steady-pure : (a : A) → Steady {S = S} (pure a)
  Steady-pure a = record { same_db = λ w. refl; same_now = λ w. refl }

  pub Steady-fail : (e : Error) → Steady {S = S} {A = A} (fail e)
  Steady-fail e = record { same_db = λ w. refl; same_now = λ w. refl }

  pub Steady-gets : (f : World S → A) → Steady (gets f)
  Steady-gets f = record { same_db = λ w. refl; same_now = λ w. refl }

  pub Steady-or_fail : (o : Option A) (e : Error) → Steady {S = S} (or_fail o e)
  Steady-or_fail none e = record { same_db = λ w. refl; same_now = λ w. refl }
  Steady-or_fail (some a) e = record { same_db = λ w. refl; same_now = λ w. refl }

  fetched :
      (f : Database → A) (w : World S) → ((fetch f w).1.db ≡ w.db) × ((fetch f w).1.now ≡ w.now)
  unfolding fetch
  fetched f w = elim (Bool-cases (fault_now w.faults)) [
    | inl bad ↦ rw bad (refl, refl)
    | inr good ↦ elim (Bool-cases (fault_now (later w.faults))) [
      | inl lost ↦ rw (good, lost) (refl, refl)
      | inr heard ↦ rw (good, heard) (refl, refl)
    ]
  ]

  pub Steady-fetch : (f : Database → A) → Steady {S = S} (fetch f)
  Steady-fetch f = record { same_db = λ w. (fetched f w).0; same_now = λ w. (fetched f w).1 }

  converted : (detail : String) (r : Outcome A) (w : World S) → (convert detail r w).1 ≡ w
  converted detail (ok a) w = refl
  converted detail (raise (http code d)) w = refl
  converted detail (raise (value_error d)) w = refl
  converted detail (raise exception) w = refl

  pub Steady-handler : {m : Action S A} (detail : String) → Steady m → Steady (handler detail m)
  unfolding handler
  Steady-handler {m} detail k = record {
    same_db = λ w. rw (converted detail (m w).0 (m w).1) (k.same_db w);
    same_now = λ w. rw (converted detail (m w).0 (m w).1) (k.same_now w);
  }

pub Steady-fail_if : {S : Type 0} (b : Bool) (e : Error) → Steady {S = S} (fail_if b e)
Steady-fail_if true e = record { same_db = λ w. refl; same_now = λ w. refl }
Steady-fail_if false e = record { same_db = λ w. refl; same_now = λ w. refl }

module _ {S A B : Type 0} where
  continued :
      (f : A → Action S B)
      → ((a : A) → Steady (f a))
      → (r : Outcome A) (w : World S)
      → ((continue r f w).1.db ≡ w.db) × ((continue r f w).1.now ≡ w.now)
  continued f k (ok a) w = ((k a).same_db w, (k a).same_now w)
  continued f k (raise e) w = (refl, refl)

  pub Steady-bind :
      {m : Action S A} {f : A → Action S B} → Steady m → ((a : A) → Steady (f a)) → Steady (m >>= f)
  Steady-bind {m} {f} km kf = record {
    same_db = λ w. (continued f kf (m w).0 (m w).1).0 ∙ km.same_db w;
    same_now = λ w. (continued f kf (m w).0 (m w).1).1 ∙ km.same_now w;
  }
