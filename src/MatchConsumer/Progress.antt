-- ===== src/MatchConsumer/Progress.antt =====
-- handle_match_found (services/api/consumers/match_consumer.py) while no statement fails.
use matchmaker_platform.Prelude.{
  ℕ, ◌≡◌, refl, ◌∙◌, ap, sym, ◌≢◌, String, true, Option, none, some, List, [], ◌∷◌, ◌++◌, is_some,
  inl, inr,
}
use matchmaker_platform.Text.{Text}
use matchmaker_platform.Schema.{Match}
use matchmaker_platform.MatchTables.{find_match, insert_match, update_match}
use matchmaker_platform.Api.{World, ok, transaction, actions}
use matchmaker_platform.MatchTables.Laws.{find_match-append_self, find_match-update_self}
use matchmaker_platform.SessionManager.{
  ServerAllocator, allocate_server, generate_session_token, token_message,
}
use matchmaker_platform.MatchConsumer.Atomicity.{IsOpened, handle_match_found-atomic}
use matchmaker_platform.MatchConsumer.{
  MatchFound, allocating_match, insert_found, shown, activate, allocate, session_rows,
  create_session, swallow, handle_valid, handle_match_found, all_player_ids,
}
use matchmaker_platform.MatchConsumer.Enrolling.{
  CanEnroll, all_entries, has_row, in_match_db, in_match_db-matches, enrolled_world,
  enroll_teams-runs, parties_in_match-runs, broadcast_all_db,
}

-- A message that can be opened: complete, for a new match of players who have accounts.
pub record CanOpen {S : Type 0} (message : MatchFound) (w : World S) : Type 0 where
  pub calm : w.faults ≡ []
  pub k : ℕ
  pub id : message.match_id ≡ some k
  pub mode : String
  pub has_mode : message.mode ≡ some mode
  pub region : String
  pub has_region : message.region ≡ some region
  pub quality : is_some message.quality_score ≡ true
  pub team : List ℕ
  pub others : List (List ℕ)
  pub has_teams : message.teams ≡ team ∷ others
  pub fresh : find_match k w.db.matches ≡ none
  pub players : CanEnroll k w.db.players w.db.match_players (all_player_ids message.teams)
  pub allocator : ServerAllocator
  pub has_allocator : w.allocator ≡ some allocator
  pub secret : Text
  pub has_secret : w.session_secret ≡ some secret

module _ {S : Type 0} (hmac : Text → Text → Text) (id_text : ℕ → Text) (message : MatchFound)
    (w : World S) (c : CanOpen message w) where
  abbrev row : Match
  row = allocating_match c.k message c.mode c.region w.now

  abbrev with_row : World S
  with_row = record w { db = record w.db { matches = w.db.matches ++ row ∷ [] }; faults = [] }

  row_inserted : insert_found c.k message message.mode message.region w.now w.db ≡ some with_row.db
  unfolding insert_found insert_match
  row_inserted = rw (c.has_mode, c.has_region, c.fresh) refl

  row_found : find_match c.k with_row.db.matches ≡ some row
  row_found = find_match-append_self c.k w.db.matches row c.fresh refl

  abbrev allocation : ServerAllocator × Text
  allocation = allocate_server c.k (shown message.region) (shown message.mode) c.allocator

  abbrev token : Text
  token = hmac c.secret (token_message id_text c.k (all_player_ids message.teams))

  token_made :
      generate_session_token hmac id_text w.session_secret c.k (all_player_ids message.teams)
      ≡ some token
  unfolding generate_session_token
  token_made = rw c.has_secret refl

  abbrev with_players : World S
  with_players = enrolled_world with_row (all_entries c.k 0 w.db.players message.teams)

  abbrev with_session : World S
  with_session = record with_players {
    db = record with_players.db {
      matches = update_match c.k (activate allocation.1 token w.now) with_row.db.matches;
    };
    allocator = some allocation.0;
    faults = [];
  }

  abbrev final : World S
  final = record with_session { db = in_match_db message.party_ids w.now with_session.db }

  session_rows-runs : session_rows hmac id_text c.k message w ≡ (ok (allocation.1, token), final)
  unfolding session_rows actions allocate
  session_rows-runs =
      rw
        (
          c.calm,
          row_inserted,
          enroll_teams-runs c.k 0 message.teams with_row refl (rw row_found refl) c.players,
          c.has_allocator,
          token_made,
          parties_in_match-runs message.party_ids with_session refl,
        )
        refl

  final_found : find_match c.k final.db.matches ≢ none
  final_found e =
      has_row {m = activate allocation.1 token w.now row}
        (find_match-update_self c.k (activate allocation.1 token w.now) with_row.db.matches
            (λ m. refl)
          ∙ rw row_found refl)
        (rw (in_match_db-matches message.party_ids w.now with_session.db) at e)

  create_session-runs : (create_session hmac id_text c.k message w).1.db ≡ final.db
  unfolding create_session transaction
  create_session-runs = rw (c.quality, session_rows-runs) (broadcast_all_db message.party_ids _ _)

  handle_valid-runs :
      (o : Option ℕ) (ts : List (List ℕ))
      → o ≡ some c.k
      → ts ≡ c.team ∷ c.others
      → (handle_valid hmac id_text o ts message w).1 ≡ (create_session hmac id_text c.k message w).1
  unfolding handle_valid swallow
  handle_valid-runs o ts e f = rw (e, f) refl

  handle_match_found-db : (handle_match_found hmac id_text message w).1.db ≡ final.db
  unfolding handle_match_found
  handle_match_found-db =
      ap (λ v. v.db) (handle_valid-runs message.match_id message.teams c.id c.has_teams)
      ∙ create_session-runs

  -- A complete message for a new match is not only handled all or nothing, it does open the session:
  -- while no statement fails, if no match has the id, every player of the teams has an account, is
  -- named once and has no row in the match, and allocator and secret are initialised.
  pub handle_match_found-IsOpened :
      IsOpened message w.db (handle_match_found hmac id_text message w).1.db
  handle_match_found-IsOpened = elim (handle_match_found-atomic hmac id_text message w) [
    | inr h ↦ h
    | inl same ↦ absurd (
        final_found
          (ap (λ db. find_match c.k db.matches) (sym handle_match_found-db ∙ same) ∙ c.fresh))
  ]
