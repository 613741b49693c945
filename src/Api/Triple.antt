-- ===== src/Api/Triple.antt =====
-- Rules for actions: what holds of the database after an action that returned, and after one that
-- raised, from what held before. One rule for each way to build an action.
use matchmaker_platform.Prelude.{
  ℕ, String, ◌≡◌, refl, Bool, true, false, Option, none, some, inl, inr, Bool-cases, Option-cases,
}
use matchmaker_platform.Schema.{Database}
use matchmaker_platform.Api.{
  World, Error, http, value_error, exception, Outcome, ok, raise, Action, pure, gets, or_fail,
  fail_if, continue, ◌>>=◌, fault_now, later, reply, end_transaction, convert, statement, fetch,
  execute, insert, transaction, handler,
}

-- The clock of a request does not move.
abbrev pub Ends :
    {S A : Type 0}
    → ℕ
    → (A → Database → Type 0)
    → (Database → Type 0)
    → Outcome A
    → World S
    → Type 0
Ends now Post Exc (ok a) w = (w.now ≡ now) × Post a w.db
Ends now Post Exc (raise e) w = (w.now ≡ now) × Exc w.db

pub record Triple {S A : Type 0} (now : ℕ) (Pre : Database → Type 0) (m : Action S A)
    (Post : A → Database → Type 0) (Exc : Database → Type 0) : Type 0 where
  pub at : (w : World S) → w.now ≡ now → Pre w.db → Ends now Post Exc (m w).0 (m w).1

module _ {S A B : Type 0} {now : ℕ} {Exc : Database → Type 0} where
  continue-Ends :
      {Q : A → Database → Type 0} {R : B → Database → Type 0} (f : A → Action S B)
      → ((a : A) → Triple now (Q a) (f a) R Exc)
      → (r : Outcome A) (w : World S) → Ends now Q Exc r w
      → Ends now R Exc (continue r f w).0 (continue r f w).1
  continue-Ends f kf (ok a) w h = (kf a).at w h.0 h.1
  continue-Ends f kf (raise e) w h = h

  pub Triple-bind :
      {Pre : Database → Type 0} {m : Action S A} {f : A → Action S B} {Q : A → Database → Type 0}
      {R : B → Database → Type 0}
      → Triple now Pre m Q Exc
      → ((a : A) → Triple now (Q a) (f a) R Exc)
      → Triple now Pre (m >>= f) R Exc
  Triple-bind {m} {f} {Q} {R} km kf = record {
    at = λ w e h. continue-Ends {Q = Q} {R = R} f kf (m w).0 (m w).1 (km.at w e h);
  }

module _ {S A : Type 0} where
  weaken-Ends :
      (now : ℕ) (Exc Exc' : Database → Type 0) (Q R : A → Database → Type 0)
      → ((a : A) (db : Database) → Q a db → R a db)
      → ((db : Database) → Exc' db → Exc db)
      → (r : Outcome A) (w : World S) → Ends now Q Exc' r w
      → Ends now R Exc r w
  weaken-Ends now Exc Exc' Q R q x (ok a) w h = (h.0, q a w.db h.1)
  weaken-Ends now Exc Exc' Q R q x (raise e) w h = (h.0, x w.db h.1)

  -- A reply that is lost raises in the world in which it would have returned.
  pub reply-Ends :
      (now : ℕ) (Exc : Database → Type 0) (Q : A → Database → Type 0) (a : A) (w : World S)
      → w.now ≡ now
      → Q a w.db
      → (Q a w.db → Exc w.db)
      → Ends now Q Exc (reply a w).0 (reply a w).1
  reply-Ends now Exc Q a w t h y = elim (Bool-cases (fault_now w.faults)) [
    | inl bad ↦ rw bad (t, y h)
    | inr good ↦ rw good (t, h)
  ]

  end-Ends :
      (now : ℕ) (Exc : Database → Type 0) (Q : A → Database → Type 0) (before : Database)
      → Exc before
      → ((a : A) (db : Database) → Q a db → Exc db)
      → (r : Outcome A) (w : World S) → Ends now Q (λ _. Unit) r w
      → Ends now Q Exc (end_transaction before r w).0 (end_transaction before r w).1
  end-Ends now Exc Q before x y (raise e) w h = (h.0, x)
  end-Ends now Exc Q before x y (ok a) w h = elim (Bool-cases (fault_now w.faults)) [
    | inl bad ↦ rw bad (h.0, x)
    | inr good ↦
        rw good (reply-Ends now Exc Q a (record w { faults = later w.faults }) h.0 h.1 (y a w.db))
  ]

  convert-Ends :
      (now : ℕ) (Exc : Database → Type 0) (Q : A → Database → Type 0) (detail : String)
      (r : Outcome A) (w : World S)
      → Ends now Q Exc r w
      → Ends now Q Exc (convert detail r w).0 (convert detail r w).1
  convert-Ends now Exc Q detail (ok a) w h = h
  convert-Ends now Exc Q detail (raise (http code d)) w h = h
  convert-Ends now Exc Q detail (raise (value_error d)) w h = h
  convert-Ends now Exc Q detail (raise exception) w h = h

module _ {S A : Type 0} {now : ℕ} {Pre Exc : Database → Type 0} where
  pub Triple-pure :
      {Q : A → Database → Type 0} (a : A)
      → ((db : Database) → Pre db → Q a db)
      → Triple {S = S} now Pre (pure a) Q Exc
  Triple-pure a q = record { at = λ w e h. (e, q w.db h) }

  pub Triple-or_fail :
      (o : Option A) (e : Error)
      → ((db : Database) → Pre db → Exc db)
      → Triple {S = S} now Pre (or_fail o e) (λ a db. Pre db × (o ≡ some a)) Exc
  Triple-or_fail none e x = record { at = λ w t h. (t, x w.db h) }
  Triple-or_fail (some a) e x = record { at = λ w t h. (t, (h, refl)) }

  pub Triple-fetch :
      (f : Database → A)
      → ((db : Database) → Pre db → Exc db)
      → Triple {S = S} now Pre (fetch f) (λ a db. Pre db × (f db ≡ a)) Exc
  unfolding fetch
  Triple-fetch f x = record {
    at = λ w t h. elim (Bool-cases (fault_now w.faults)) [
      | inl bad ↦ rw bad (t, x w.db h)
      | inr good ↦ rw good (
          reply-Ends now Exc (λ a db. Pre db × (f db ≡ a)) (f w.db)
            (record w { faults = later w.faults }) t (h, refl) (λ _. x w.db h))
    ];
  }

  pub Triple-weaken :
      {Pre' Exc' : Database → Type 0} {Q R : A → Database → Type 0} {m : Action S A}
      → Triple now Pre' m Q Exc'
      → ((db : Database) → Pre db → Pre' db)
      → ((a : A) (db : Database) → Q a db → R a db)
      → ((db : Database) → Exc' db → Exc db)
      → Triple now Pre m R Exc
  Triple-weaken {Exc'} {Q} {R} {m} k p q x = record {
    at = λ w t h. weaken-Ends now Exc Exc' Q R q x (m w).0 (m w).1 (k.at w t (p w.db h));
  }

  pub Triple-transaction :
      {Q : A → Database → Type 0} {m : Action S A}
      → Triple now Pre m Q (λ _. Unit)
      → ((db : Database) → Pre db → Exc db)
      → ((a : A) (db : Database) → Q a db → Exc db)
      → Triple now Pre (transaction m) Q Exc
  unfolding transaction
  Triple-transaction {Q} {m} k x y = record {
    at = λ w t h. end-Ends now Exc Q w.db (x w.db h) y (m w).0 (m w).1 (k.at w t h);
  }

  pub Triple-handler :
      {Q : A → Database → Type 0} {m : Action S A} (detail : String)
      → Triple now Pre m Q Exc
      → Triple now Pre (handler detail m) Q Exc
  unfolding handler
  Triple-handler {Q} {m} detail k = record {
    at = λ w t h. convert-Ends now Exc Q detail (m w).0 (m w).1 (k.at w t h);
  }

module _ {S : Type 0} {now : ℕ} {Pre Exc : Database → Type 0} where
  pub Triple-fail_if :
      (b : Bool) (e : Error)
      → ((db : Database) → Pre db → Exc db)
      → Triple {S = S} now Pre (fail_if b e) (λ _ db. Pre db × (b ≡ false)) Exc
  Triple-fail_if true e x = record { at = λ w t h. (t, x w.db h) }
  Triple-fail_if false e x = record { at = λ w t h. (t, (h, refl)) }

  pub Triple-execute :
      {Q : Database → Type 0} (f : World S → Database)
      → ((db : Database) → Pre db → Exc db)
      → ((w : World S) → w.now ≡ now → Pre w.db → Q (f w))
      → ((db : Database) → Q db → Exc db)
      → Triple now Pre (execute f) (λ _. Q) Exc
  unfolding execute
  Triple-execute {Q} f x q y = record {
    at = λ w t h. elim (Bool-cases (fault_now w.faults)) [
      | inl bad ↦ rw bad (t, x w.db h)
      | inr good ↦
          let sent = record w { faults = later w.faults } in
          rw good (reply-Ends now Exc (λ _. Q) tt (record sent { db = f w }) t (q w t h) (y _))
    ];
  }

  pub Triple-insert :
      {Q : Database → Type 0} (f : World S → Option Database)
      → ((db : Database) → Pre db → Exc db)
      → ((w : World S) (db : Database) → w.now ≡ now → Pre w.db → f w ≡ some db → Q db)
      → ((db : Database) → Q db → Exc db)
      → Triple now Pre (insert f) (λ _. Q) Exc
  unfolding insert
  Triple-insert {Q} f x q y = record {
    at = λ w t h. elim (Bool-cases (fault_now w.faults)) [
      | inl bad ↦ rw bad (t, x w.db h)
      | inr good ↦
          let sent = record w { faults = later w.faults } in
          rw good (elim (Option-cases (f w)) [
            | inl refused ↦ rw refused (t, x w.db h)
            | inr (db, e) ↦
                rw e
                  (reply-Ends now Exc (λ _. Q) tt (record sent { db = db }) t (q w db t h e) (y db))
          ])
    ];
  }

-- A statement that returns rows and may violate a constraint.
pub Triple-statement :
    {S A : Type 0} {now : ℕ} {Pre Exc : Database → Type 0} {Q : A → Database → Type 0}
    (f : World S → Option (A × Database))
    → ((db : Database) → Pre db → Exc db)
    → ((w : World S) (a : A) (db : Database) → w.now ≡ now → Pre w.db → f w ≡ some (a, db) → Q a db)
    → ((a : A) (db : Database) → Q a db → Exc db)
    → Triple now Pre (statement f) Q Exc
unfolding statement
Triple-statement {now} {Exc} {Q} f x q y = record {
  at = λ w t h. elim (Bool-cases (fault_now w.faults)) [
    | inl bad ↦ rw bad (t, x w.db h)
    | inr good ↦
        let sent = record w { faults = later w.faults } in
        rw good (elim (Option-cases (f w)) [
          | inl refused ↦ rw refused (t, x w.db h)
          | inr ((a, db), e) ↦
              rw e (reply-Ends now Exc Q a (record sent { db = db }) t (q w a db t h e) (y a db))
        ])
  ];
}

-- UPDATE ... RETURNING, which violates no constraint
pub Triple-update :
    {S A : Type 0} {now : ℕ} {Pre Exc Q : Database → Type 0} (f : World S → A × Database)
    → ((db : Database) → Pre db → Exc db)
    → ((w : World S) → w.now ≡ now → Pre w.db → Q (f w).1)
    → ((db : Database) → Q db → Exc db)
    → Triple now Pre (statement (λ w. some (f w))) (λ _. Q) Exc
unfolding statement
Triple-update {now} {Exc} {Q} f x q y = record {
  at = λ w t h. elim (Bool-cases (fault_now w.faults)) [
    | inl bad ↦ rw bad (t, x w.db h)
    | inr good ↦
        let sent = record w { faults = later w.faults } in
        rw good
          (reply-Ends now Exc (λ _. Q) (f w).0 (record sent { db = (f w).1 }) t (q w t h) (y _))
  ];
}

pub Triple-gets :
    {S A : Type 0} {now : ℕ} {Pre Exc : Database → Type 0} (f : World S → A)
    → Triple now Pre (gets f) (λ _. Pre) Exc
Triple-gets f = record { at = λ w t h. (t, h) }
