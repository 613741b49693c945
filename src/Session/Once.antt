-- ===== src/Session/Once.antt =====
-- submit_match_result (services/api/routes/session.py): the match before and after an attempt to
-- submit its result.
use matchmaker_platform.Prelude.{ℕ, ◌≡◌, refl, ◌∙◌, ◌≢◌, ◌⊎◌, inl, inr, Bool, false, some}
use matchmaker_platform.Schema.{Database, Match, active}
use matchmaker_platform.MatchTables.{find_match}
use matchmaker_platform.MmrCalculator.{Floats}
use matchmaker_platform.Redis.{RedisServer}
use matchmaker_platform.Api.{World, Outcome, ok, raise, Error}
use matchmaker_platform.Api.Triple.{Triple, Ends, Triple-bind, Triple-weaken, Triple-handler}
use matchmaker_platform.Session.{MatchResultRequest, submit_match_result}
use matchmaker_platform.Session.Statements.{write_result-Triple}
use matchmaker_platform.Session.Accepting.{
  IsAccepted, IsEnded, IsEnded-row, Triple-catch, check_result-Triple, ended_ne, false_ne,
  settled-Kept,
}

-- What an attempt to submit a result leaves: without an exception, the match was active and is
-- ended; with one, nothing has changed, or that has happened all the same.
abbrev pub IsSettled :
    ℕ → MatchResultRequest → Bool → Database → Outcome (Unit {0}) → Database → Type 0
IsSettled k request jsonb before (ok a) after =
    IsAccepted k request jsonb before × IsEnded k request after
IsSettled k request jsonb before (raise e) after =
    (after ≡ before) ⊎ (IsAccepted k request jsonb before × IsEnded k request after)

settled :
    {S : Type 0} (now k : ℕ) (request : MatchResultRequest) (jsonb : Bool) (before : Database)
    (r : Outcome (Unit {0})) (w : World S)
    → Ends now
        (λ _ db. IsAccepted k request jsonb before × IsEnded k request db)
        (λ db. (db ≡ before) ⊎ (IsAccepted k request jsonb before × IsEnded k request db))
        r
        w
    → IsSettled k request jsonb before r w.db
settled now k request jsonb before (ok a) w h = h.1
settled now k request jsonb before (raise e) w h = h.1

refused :
    (k : ℕ) (request : MatchResultRequest) (jsonb : Bool) (before after : Database)
    (r : Outcome (Unit {0}))
    → ¬ IsAccepted k request jsonb before
    → IsSettled k request jsonb before r after
    → ((e : Error) × (r ≡ raise e)) × (after ≡ before)
refused k request jsonb before after (ok a) denied h = absurd (denied h.0)
refused k request jsonb before after (raise e) denied (inl same) = ((e, refl), same)
refused k request jsonb before after (raise e) denied (inr h) = absurd (denied h.0)

changed :
    (k : ℕ) (request : MatchResultRequest) (jsonb : Bool) (before after : Database)
    (r : Outcome (Unit {0}))
    → IsSettled k request jsonb before r after
    → (after ≡ before) ⊎ IsEnded k request after
changed k request jsonb before after (ok a) h = inr h.1
changed k request jsonb before after (raise e) (inl same) = inl same
changed k request jsonb before after (raise e) (inr h) = inr h.1

not_active_any_more :
    (k : ℕ) (m : Match) (request : MatchResultRequest) (jsonb : Bool) (db : Database)
    → find_match k db.matches ≡ some m
    → m.status ≢ active
    → ¬ IsAccepted k request jsonb db
not_active_any_more k m request jsonb db there over h = over (cc (there, h.found, h.was_active))

module _ (server : RedisServer) (jsonb_as_object : Bool) (fl : Floats) (calendar : ℕ → ℕ × ℕ) where
  open server use {State}

  submit_match_result-Triple :
      (now k : ℕ) (request : MatchResultRequest) (before : Database)
      → Triple {S = State} now
          (λ db. db ≡ before)
          (submit_match_result server jsonb_as_object fl calendar k request)
          (λ _ db. IsAccepted k request jsonb_as_object before × IsEnded k request db)
          (λ db.
            (db ≡ before) ⊎ (IsAccepted k request jsonb_as_object before × IsEnded k request db))
  unfolding submit_match_result
  submit_match_result-Triple now k request before = Triple-handler _ (
      Triple-catch (
        Triple-bind
          (Triple-weaken (check_result-Triple jsonb_as_object now k request before) (λ _ h. h)
            (λ _ _ h. h) (λ _ h. inl h))
          λ metadata.
            write_result-Triple server fl calendar jsonb_as_object now k request metadata
              (settled-Kept before k request)
              (λ db t h. (h.1, IsEnded-row k t request jsonb_as_object before db h))
              (λ _ h. inl h.0) (λ _ h. inr h)))

  -- A result is accepted only for a match that is active, with one of its teams as the winner.
  -- Without an exception the match is ended afterwards and holds the result; with an exception either
  -- no table has changed, or the match was accepted and is ended with that result.
  pub submit_match_result-IsSettled :
      (k : ℕ) (request : MatchResultRequest) (w : World State)
      → let (r, w') = submit_match_result server jsonb_as_object fl calendar k request w in
        IsSettled k request jsonb_as_object w.db r w'.db
  submit_match_result-IsSettled k request w =
      let done = submit_match_result server jsonb_as_object fl calendar k request w in
      settled w.now k request jsonb_as_object w.db done.0 done.1
        ((submit_match_result-Triple w.now k request w.db).at w refl refl)

  -- For a match that is not active, a result is refused with an exception, and no table changes.
  pub submit_match_result-refused :
      (k : ℕ) (m : Match) (request : MatchResultRequest) (w : World State)
      → find_match k w.db.matches ≡ some m
      → m.status ≢ active
      → let (r, w') = submit_match_result server jsonb_as_object fl calendar k request w in
        ((e : Error) × (r ≡ raise e)) × (w'.db ≡ w.db)
  submit_match_result-refused k m request w there over =
      refused k request jsonb_as_object w.db _ _
        (not_active_any_more k m request jsonb_as_object w.db there over)
        (submit_match_result-IsSettled k request w)

  -- Of two results for a match, one after the other, at most one changes the tables, whatever faults
  -- on the way and whatever happens outside the database in between.
  pub submit_match_result-once :
      (k : ℕ) (first second : MatchResultRequest) (w v : World State)
      → v.db ≡ (submit_match_result server jsonb_as_object fl calendar k first w).1.db
      → (v.db ≡ w.db)
        ⊎ ((submit_match_result server jsonb_as_object fl calendar k second v).1.db ≡ v.db)
  submit_match_result-once k first second w v e =
      elim (changed k first jsonb_as_object w.db _ _ (submit_match_result-IsSettled k first w)) [
        | inl same ↦ inl (e ∙ same)
        | inr h ↦
            inr
              (submit_match_result-refused k h.0 second v (rw e h.1)
                (λ x. ended_ne (cc (h.2, x)))).1
      ]

-- On a connection that hands JSONB out as text, as the pool of the API does, no result is ever
-- accepted: every attempt ends in an exception and leaves the tables alone.
pub submit_match_result-text :
    (server : RedisServer) (fl : Floats) (calendar : ℕ → ℕ × ℕ) (k : ℕ)
    (request : MatchResultRequest) (w : World server.State)
    → let (r, w') = submit_match_result server false fl calendar k request w in
      ((e : Error) × (r ≡ raise e)) × (w'.db ≡ w.db)
submit_match_result-text server fl calendar k request w =
    refused k request false w.db _ _ (λ h. false_ne h.as_object)
      (submit_match_result-IsSettled server false fl calendar k request w)
