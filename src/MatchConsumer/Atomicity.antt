-- ===== src/MatchConsumer/Atomicity.antt =====
-- The transaction of handle_match_found (services/api/consumers/match_consumer.py), and what can be
-- in the tables after a message.
use matchmaker_platform.Prelude.{
  ℕ, ◌+◌, ◌≡◌, refl, ◌≢◌, ◌⊎◌, inl, inr, String, not, Option, none, some, List, [], ◌∷◌, ◌++◌,
  is_some, arith, Option-cases,
}
use mathlib.Core.List.{append_assoc, append-nil}
use matchmaker_platform.Text.{Text}
use matchmaker_platform.Schema.{Database, Match, allocating}
use matchmaker_platform.MatchTables.{find_match, insert_match_player}
use matchmaker_platform.Sockets.{Message}
use matchmaker_platform.Party.Capacity.{IsConsistent}
use matchmaker_platform.SessionManager.{generate_session_token}
use matchmaker_platform.Api.{World, Action, Outcome, ok, raise, exception}
use matchmaker_platform.Api.Triple.{
  Triple, Ends, Triple-bind, Triple-pure, Triple-or_fail, Triple-fetch, Triple-weaken,
  Triple-transaction, Triple-fail_if, Triple-execute, Triple-insert, Triple-gets,
}
use matchmaker_platform.Api.Quiet.{Triple-quiet, Triple-steady, Steady, broadcast-Quiet}
use matchmaker_platform.MatchConsumer.{
  MatchFound, all_player_ids, insert_found, new_match_player, enroll_player, enroll_team,
  enroll_teams, allocate, parties_in_match, broadcast_match_found_to_parties, swallow, session_rows,
  create_session, handle_valid, handle_match_found,
}
use matchmaker_platform.MatchConsumer.Opening.{
  Enrolled, Opened, IsRunning, insert-Opened, insert_found-Opened, activate-Opened,
  set_party-Opened,
}

module _ {S : Type 0} where
  -- An action on the tables of one session, inside its transaction.
  abbrev Grows :
      {A : Type 0} → ℕ → ℕ → Database → List ℕ → List ℕ → (Match → Type 0) → Action S A → Type 0
  Grows now k before players players' r m =
      Triple {S = S} now (Opened k before players r) m (λ _. Opened k before players' r) (λ _. Unit)

  enroll_player-Grows :
      (now k team q : ℕ) (before : Database) (players : List ℕ) (r : Match → Type 0)
      → Grows now k before players (players ++ q ∷ []) r (enroll_player k team q)
  unfolding enroll_player
  enroll_player-Grows now k team q before players r =
      Triple-bind (Triple-fetch _ (λ _ _. tt)) λ found.
        Triple-bind (Triple-or_fail found _ (λ _ _. tt)) λ p.
          Triple-insert (λ w. insert_match_player (new_match_player k q team p.mmr) w.db)
            (λ _ _. tt)
            (λ w db t h e.
              insert-Opened k before players r (new_match_player k q team p.mmr) w.db db refl h.0.0
                e)
            (λ _ _. tt)

  enroll_team-Grows :
      (now k team : ℕ) (qs : List ℕ) (before : Database) (players : List ℕ) (r : Match → Type 0)
      → Grows now k before players (players ++ qs) r (enroll_team k team qs)
  unfolding enroll_team
  enroll_team-Grows now k team [] before players r =
      Triple-pure _ (λ _ h. rw (append-nil players) h)
  enroll_team-Grows now k team (q ∷ qs) before players r =
      Triple-bind (enroll_player-Grows now k team q before players r) λ _.
        rw (← append_assoc players (q ∷ []) qs)
          (enroll_team-Grows now k team qs before (players ++ q ∷ []) r)

  enroll_teams-Grows :
      (now k i : ℕ) (ts : List (List ℕ)) (before : Database) (players : List ℕ) (r : Match → Type 0)
      → Grows now k before players (players ++ all_player_ids ts) r (enroll_teams k i ts)
  unfolding enroll_teams all_player_ids
  enroll_teams-Grows now k i [] before players r = Triple-pure _ (λ _ h. rw (append-nil players) h)
  enroll_teams-Grows now k i (t ∷ ts) before players r =
      Triple-bind (enroll_team-Grows now k i t before players r) λ _.
        rw (← append_assoc players t (all_player_ids ts))
          (enroll_teams-Grows now k (i + 1) ts before (players ++ t) r)

  parties_in_match-Grows :
      (now k : ℕ) (js : List ℕ) (before : Database) (players : List ℕ) (r : Match → Type 0)
      → Grows now k before players players r (parties_in_match js)
  unfolding parties_in_match
  parties_in_match-Grows now k [] before players r = Triple-pure _ (λ _ h. h)
  parties_in_match-Grows now k (j ∷ js) before players r =
      Triple-bind
        (Triple-execute _ (λ _ _. tt) (λ w t h. set_party-Opened k j w.now before players r w.db h)
          (λ _ _. tt))
        λ _. parties_in_match-Grows now k js before players r

  allocate-Steady : (k : ℕ) (region mode : String) → Steady {S = S} (allocate k region mode)
  unfolding allocate
  allocate-Steady k region mode = record {
    same_db = λ w. elim (Option-cases w.allocator) [
      | inl off ↦ rw (off, allocate) refl
      | inr (a, on) ↦ rw (on, allocate) refl
    ];
    same_now = λ w. elim (Option-cases w.allocator) [
      | inl off ↦ rw (off, allocate) refl
      | inr (a, on) ↦ rw (on, allocate) refl
    ];
  }

-- What a delivery of the message leaves: a session that was not there before, which is running,
-- with all players of the message enrolled.
pub record IsOpened (message : MatchFound) (before after : Database) : Type 0 where
  pub match_id : ℕ
  pub same_id : message.match_id ≡ some match_id
  pub fresh : find_match match_id before.matches ≡ none
  pub row : (m : Match) × (find_match match_id after.matches ≡ some m) × IsRunning m
  pub enrolled : Enrolled match_id (all_player_ids message.teams) after.match_players

-- The same, with what the transaction keeps.
abbrev Committed : MatchFound → Database → Database → Type 0
Committed message before after =
    (k : ℕ) × (message.match_id ≡ some k)
    × Opened k before (all_player_ids message.teams) IsRunning after

opened :
    (message : MatchFound) (before after : Database)
    → Committed message before after
    → IsOpened message before after
opened message before after h = record {
  match_id = h.0;
  same_id = h.1;
  fresh = h.2.fresh;
  row = h.2.row;
  enrolled = h.2.enrolled;
}

module _ {S : Type 0} where
  broadcast_all-Triple :
      (now : ℕ) (P Exc : Database → Type 0) (ks : List ℕ) (m : Message)
      → Triple {S = S} now P (broadcast_match_found_to_parties ks m) (λ _. P) Exc
  unfolding broadcast_match_found_to_parties
  broadcast_all-Triple now P Exc [] m = Triple-pure _ (λ _ h. h)
  broadcast_all-Triple now P Exc (k ∷ ks) m =
      Triple-bind (Triple-quiet (broadcast-Quiet k m)) λ _. broadcast_all-Triple now P Exc ks m

  module _ (hmac : Text → Text → Text) (id_text : ℕ → Text) where
    session_rows-Triple :
        (now k : ℕ) (message : MatchFound) (before : Database)
        → Triple {S = S} now
            (λ db. db ≡ before)
            (session_rows hmac id_text k message)
            (λ _. Opened k before (all_player_ids message.teams) IsRunning)
            (λ _. Unit)
    unfolding session_rows
    session_rows-Triple now k message before =
        let new = λ (m : Match). m.status ≡ allocating in
        let players = all_player_ids message.teams in
        Triple-bind {Q = λ _. Opened k before [] new}
          (Triple-insert (λ w. insert_found k message message.mode message.region w.now w.db)
            (λ _ _. tt)
            (λ w db t h e.
              rw (← h) (insert_found-Opened k message message.mode message.region w.now w.db db e))
            (λ _ _. tt))
          λ _. Triple-bind (enroll_teams-Grows now k 0 message.teams before [] new) λ _.
            Triple-bind (Triple-steady (allocate-Steady k _ _) (λ _ _. tt)) λ endpoint.
              Triple-bind
                (Triple-gets (λ w.
                  generate_session_token hmac id_text w.session_secret k
                    (all_player_ids message.teams)))
                λ made. Triple-bind (Triple-or_fail made exception (λ _ _. tt)) λ token.
                  Triple-bind {Q = λ _. Opened k before players IsRunning}
                    (Triple-execute _ (λ _ _. tt)
                      (λ w t h. activate-Opened k w.now endpoint token before players new w.db h.0)
                      (λ _ _. tt))
                    λ _.
                      Triple-bind
                        (parties_in_match-Grows now k message.party_ids before players IsRunning)
                        λ _. Triple-pure (endpoint, token) (λ _ h. h)

    create_session-Triple :
        (now k : ℕ) (message : MatchFound) (before : Database)
        → Triple {S = S} now
            (λ db. db ≡ before)
            (create_session hmac id_text k message)
            (λ _. Opened k before (all_player_ids message.teams) IsRunning)
            (λ db. (db ≡ before) ⊎ Opened k before (all_player_ids message.teams) IsRunning db)
    unfolding create_session
    create_session-Triple now k message before =
        Triple-bind (Triple-fail_if (not (is_some message.quality_score)) exception (λ _ h. inl h))
          λ _.
            Triple-bind
              (Triple-transaction
                (Triple-weaken (session_rows-Triple now k message before) (λ _ h. h.0) (λ _ _ h. h)
                  (λ _ _. tt))
                (λ _ h. inl h.0) (λ _ _ h. inr h))
              λ made. broadcast_all-Triple now _ _ message.party_ids _

    outcome :
        (now k : ℕ) (message : MatchFound) (before : Database)
        → message.match_id ≡ some k
        → (r : Outcome (Unit {0})) (w : World S)
        → Ends now
            (λ _. Opened k before (all_player_ids message.teams) IsRunning)
            (λ db. (db ≡ before) ⊎ Opened k before (all_player_ids message.teams) IsRunning db)
            r
            w
        → (w.db ≡ before) ⊎ Committed message before w.db
    outcome now k message before e (ok a) w h = inr (k, e, h.1)
    outcome now k message before e (raise x) w h = elim h.1 [
      | inl same ↦ inl same
      | inr o ↦ inr (k, e, o)
    ]

    handle_valid-atomic :
        (message : MatchFound) (w : World S) (o : Option ℕ) (ts : List (List ℕ))
        → message.match_id ≡ o
        → let w' = (handle_valid hmac id_text o ts message w).1 in
          (w'.db ≡ w.db) ⊎ Committed message w.db w'.db
    unfolding handle_valid swallow
    handle_valid-atomic message w none ts e = inl refl
    handle_valid-atomic message w (some k) [] e = inl refl
    handle_valid-atomic message w (some k) (t ∷ ts) e =
        let done = create_session hmac id_text k message w in
        outcome w.now k message w.db e done.0 done.1
          ((create_session-Triple w.now k message w.db).at w refl refl)

    -- A match.found message is handled all or nothing, whatever faults on the way: either no table
    -- changes, or the match is new, and afterwards it is active, has its endpoint, its token and its
    -- start time, and every player of every team has a row in it.
    pub handle_match_found-atomic :
        (message : MatchFound) (w : World S)
        → let w' = (handle_match_found hmac id_text message w).1 in
          (w'.db ≡ w.db) ⊎ IsOpened message w.db w'.db
    unfolding handle_match_found
    handle_match_found-atomic message w =
        elim (handle_valid-atomic message w message.match_id message.teams refl) [
          | inl same ↦ inl same
          | inr h ↦ inr (opened message w.db _ h)
        ]

    pub handle_match_found-IsConsistent :
        (message : MatchFound) (w : World S)
        → IsConsistent w.db
        → IsConsistent (handle_match_found hmac id_text message w).1.db
    unfolding handle_match_found
    handle_match_found-IsConsistent message w h =
        elim (handle_valid-atomic message w message.match_id message.teams refl) [
          | inl same ↦ rw same h
          | inr c ↦ c.2.consistent h
        ]

    -- A message that is delivered again, for a match that is there already, changes no table.
    pub handle_match_found-again :
        (message : MatchFound) (k : ℕ) (w : World S)
        → message.match_id ≡ some k
        → find_match k w.db.matches ≢ none
        → (handle_match_found hmac id_text message w).1.db ≡ w.db
    handle_match_found-again message k w e known = elim (handle_match_found-atomic message w) [
      | inl same ↦ same
      | inr h ↦ absurd (known (let q : k ≡ h.match_id = ground (arith, h.same_id) in rw q h.fresh))
    ]
