-- ===== src/Session/Accepting.antt =====
-- What submit_match_result checks before its first statement that writes, and what that one writes.
use matchmaker_platform.Prelude.{
  ℕ, ◌<◌, ◌≡◌, refl, ◌∙◌, ◌≢◌, Bool, true, false, not, Option, some, arith, leb, length,
}
use matchmaker_platform.Schema.{Database, Match, active, ended}
use matchmaker_platform.MatchTables.{find_match, update_match}
use matchmaker_platform.MatchTables.Laws.{find_match-update_self}
use matchmaker_platform.SessionManager.{can_transition}
use matchmaker_platform.SessionManager.Lifecycle.{can_transition-ended}
use matchmaker_platform.Api.{World, Action, Outcome, ok, raise, http, value_error, exception}
use matchmaker_platform.Api.Triple.{
  Triple, Ends, Triple-bind, Triple-pure, Triple-or_fail, Triple-fetch, Triple-fail_if,
}
use matchmaker_platform.Session.{
  MatchResultRequest, metadata_or_empty, end_match, read_metadata, check_result, catch_value_error,
  value_errors_are_400,
}
use matchmaker_platform.Session.Statements.{Kept}

-- The match is there and active, the driver hands out objects, and the winner is one of its teams.
pub record IsAccepted (k : ℕ) (request : MatchResultRequest) (jsonb_as_object : Bool)
    (before : Database) : Type 0 where
  pub row : Match
  pub found : find_match k before.matches ≡ some row
  pub was_active : row.status ≡ active
  pub as_object : jsonb_as_object ≡ true
  pub winner : request.winner_team < length row.metadata.teams

-- The match is ended, with the result of the request.
abbrev pub IsEnded : ℕ → MatchResultRequest → Database → Type 0
IsEnded k request db =
    (m : Match) × (find_match k db.matches ≡ some m)
    × (m.status ≡ ended)
    × (m.result
        ≡ some (record {
          winner_team = request.winner_team;
          duration_seconds = request.duration_seconds;
          metadata = metadata_or_empty request.metadata;
        }))

not-true : (b : Bool) → not b ≡ false → b ≡ true
not-true true h = refl
not-true false h = cc

is_winner : (m n : ℕ) → leb m n ≡ false → n < m
is_winner m n h = ground arith

pub accepted :
    (k : ℕ) (request : MatchResultRequest) (jsonb_as_object : Bool) (before db : Database)
    (found : Option Match) (m : Match)
    → db ≡ before
    → find_match k db.matches ≡ found
    → found ≡ some m
    → not (can_transition m.status ended) ≡ false
    → not jsonb_as_object ≡ false
    → leb (length m.metadata.teams) request.winner_team ≡ false
    → IsAccepted k request jsonb_as_object before
accepted k request jsonb before db found m same q e allowed object winner = record {
  row = m;
  found = rw (← same) (q ∙ e);
  was_active = can_transition-ended m.status (not-true _ allowed);
  as_object = not-true _ object;
  winner = is_winner _ _ winner;
}

pub IsEnded-row :
    (k now : ℕ) (request : MatchResultRequest) (jsonb_as_object : Bool) (before db : Database)
    → (db ≡ before) × IsAccepted k request jsonb_as_object before
    → IsEnded k request (record db { matches = update_match k (end_match request now) db.matches })
IsEnded-row k now request jsonb before db h = (
  end_match request now h.1.row,
  rw (find_match-update_self k (end_match request now) db.matches (λ m. refl), h.0, h.1.found) refl,
  refl,
  refl,
)

caught :
    {S A : Type 0} (now : ℕ) (Exc : Database → Type 0) (Q : A → Database → Type 0) (r : Outcome A)
    (w : World S)
    → Ends now Q Exc r w
    → Ends now Q Exc (value_errors_are_400 r w).0 (value_errors_are_400 r w).1
caught now Exc Q (ok a) w h = h
caught now Exc Q (raise (http c d)) w h = h
caught now Exc Q (raise (value_error d)) w h = h
caught now Exc Q (raise exception) w h = h

pub Triple-catch :
    {S A : Type 0} {now : ℕ} {Pre Exc : Database → Type 0} {Q : A → Database → Type 0}
    {m : Action S A}
    → Triple now Pre m Q Exc
    → Triple now Pre (catch_value_error m) Q Exc
unfolding catch_value_error
Triple-catch {now} {Exc} {Q} {m} k = record {
  at = λ w t h. caught now Exc Q (m w).0 (m w).1 (k.at w t h);
}

pub check_result-Triple :
    {S : Type 0} (jsonb_as_object : Bool) (now k : ℕ) (request : MatchResultRequest)
    (before : Database)
    → Triple {S = S} now
        (λ db. db ≡ before)
        (check_result jsonb_as_object k request)
        (λ _ db. (db ≡ before) × IsAccepted k request jsonb_as_object before)
        (λ db. db ≡ before)
unfolding check_result read_metadata
check_result-Triple jsonb now k request before = Triple-bind (Triple-fetch _ (λ _ h. h)) λ found.
    Triple-bind (Triple-or_fail found _ (λ _ h. h.0)) λ m.
      Triple-bind (Triple-fail_if (not (can_transition m.status ended)) _ (λ _ h. h.0.0)) λ _.
        Triple-bind
          {Q = λ metadata db.
            (((((db ≡ before) × (find_match k db.matches ≡ found)) × (found ≡ some m))
                × (not (can_transition m.status ended) ≡ false))
              × (not jsonb ≡ false))
            × (m.metadata ≡ metadata)}
          (Triple-bind (Triple-fail_if (not jsonb) exception (λ _ h. h.0.0.0))
            λ _. Triple-pure m.metadata (λ _ h. (h, refl)))
          λ metadata.
            Triple-bind
              (Triple-fail_if (leb (length metadata.teams) request.winner_team) _
                (λ _ h. h.0.0.0.0.0))
              λ _. Triple-pure metadata (λ db h. (
                h.0.0.0.0.0.0,
                accepted k request jsonb before db found m h.0.0.0.0.0.0 h.0.0.0.0.0.1 h.0.0.0.0.1
                    h.0.0.0.1 h.0.0.1 (rw (← h.0.1) at h.1),
              ))

pub ended_ne : ended ≢ active
ended_ne e = ground arith

pub false_ne : false ≢ true
false_ne e = cc

pub settled-Kept :
    (before : Database) (k : ℕ) (request : MatchResultRequest) {jsonb : Bool}
    → Kept (λ db. IsAccepted k request jsonb before × IsEnded k request db)
settled-Kept before k request = record {
  players = λ db ps h. h;
  match_players = λ db ms h. h;
  history = λ db x h. h;
  leaderboard = λ db season q rating r ne h. h;
  parties = λ db j now h. h;
}
