-- ===== src/Session/Statements.antt =====
-- The statements of submit_match_result after the match is ended: what each property of the tables
-- needs so that all of them keep it, whatever faults.
use matchmaker_platform.Prelude.{
  ℕ, ◌+◌, ◌≡◌, refl, ◌≢◌, String, Bool, Option, none, some, List, [], ◌∷◌, Option-cases, inl, inr,
  arith,
}
use matchmaker_platform.Prelude.Int.{ℤ, ◌+ℤ◌}
use matchmaker_platform.Text.{Text}
use matchmaker_platform.Schema.{
  Database, Player, MatchPlayer, MatchHistory, MatchResult, draw, Metadata, idle,
}
use matchmaker_platform.MatchTables.{update_match, upsert_leaderboard, add_history}
use matchmaker_platform.MmrCalculator.{
  Floats, calculate_mmr_change, default_k_factor, get_season_id, team_average,
}
use matchmaker_platform.Redis.{RedisServer}
use matchmaker_platform.HeartbeatTracker.Laws.{clear_heartbeat-Quiet}
use matchmaker_platform.Party.{set_party, set_status}
use matchmaker_platform.Api.{Action, exception}
use matchmaker_platform.Api.Triple.{
  Triple, Triple-bind, Triple-pure, Triple-or_fail, Triple-fetch, Triple-weaken, Triple-execute,
  Triple-insert, Triple-gets,
}
use matchmaker_platform.Api.Quiet.{Triple-quiet, Triple-steady, Steady}
use matchmaker_platform.Session.{
  MatchResultRequest, player_data, opponent_avg_mmr, result_type, stats_text, history_row,
  team_averages, submit_player_data, submit_player, submit_team, submit_teams, parties_idle,
  deallocate, end_match, write_result,
}

-- A property of the tables that each of the statements keeps.
pub record Kept (P : Database → Type 0) : Type 0 where
  pub players : (db : Database) (ps : List Player) → P db → P (record db { players = ps })
  pub match_players :
      (db : Database) (ms : List MatchPlayer) → P db → P (record db { match_players = ms })
  pub history : (db : Database) (h : MatchHistory) → P db → P (add_history h db)
  pub leaderboard :
      (db : Database) (season : Text) (q : ℕ) (rating : ℤ) (r : MatchResult)
      → r ≢ draw
      → P db
      → P (record db { leaderboard = upsert_leaderboard season q rating r db.leaderboard })
  pub parties : (db : Database) (k now : ℕ) → P db → P (set_party k (set_status idle now) db)

result_type-ne : (i winner : ℕ) → result_type i winner ≢ draw
result_type-ne i winner e = ground arith

some_eq : {a b : Database} → some a ≡ some b → a ≡ b
some_eq e = cc

history_row-kept :
    (P : Database → Type 0) (kept : Kept P) (k q : ℕ) (mode : Option String) (r : MatchResult)
    (change : ℤ) (i : ℕ) (stats : String) (now : ℕ) (db db' : Database)
    → P db
    → history_row k q mode r change i stats now db ≡ some db'
    → P db'
unfolding history_row
history_row-kept P kept k q none r change i stats now db db' h e = cc
history_row-kept P kept k q (some mode) r change i stats now db db' h e =
    rw (← some_eq e) (kept.history db _ h)

module _ {S : Type 0} (P : Database → Type 0) (kept : Kept P) (now : ℕ) where
  abbrev pub Keeps : {A : Type 0} → Action S A → Type 0
  Keeps m = Triple {S = S} now P m (λ _. P) P

  team_averages-Keeps :
      (fl : Floats) (k : ℕ) (ts : List (List ℕ)) → Keeps (team_averages {S = S} fl k ts)
  unfolding team_averages
  team_averages-Keeps fl k [] = Triple-pure _ (λ _ h. h)
  team_averages-Keeps fl k (t ∷ ts) = Triple-bind (Triple-fetch _ (λ _ h. h)) λ mmrs.
      Triple-bind (Triple-or_fail (team_average fl mmrs) exception (λ _ h. h.0)) λ avg.
        Triple-bind
          (Triple-weaken (team_averages-Keeps fl k ts) (λ _ h. h.0.0) (λ _ _ h. h) (λ _ h. h))
          λ rest. Triple-pure _ (λ _ h. h)

  module _ (fl : Floats) (k : ℕ) (request : MatchResultRequest) (season : Text)
      (mode : Option String) where
    submit_player_data-Keeps :
        (i : ℕ) (opponent : ℤ) (q : ℕ) (found : Option ℤ)
        → Keeps (submit_player_data {S = S} fl k request season mode i opponent q found)
    unfolding submit_player_data
    submit_player_data-Keeps i opponent q none = Triple-pure _ (λ _ h. h)
    submit_player_data-Keeps i opponent q (some before) =
        let r = result_type i request.winner_team in
        Triple-bind
          (Triple-or_fail (calculate_mmr_change fl before opponent r default_k_factor) exception
            (λ _ h. h))
          λ change.
            Triple-bind
              (Triple-execute _ (λ _ h. h.0) (λ w t h. kept.match_players w.db _ h.0) (λ _ h. h))
              λ _.
                Triple-bind
                  (Triple-execute _ (λ _ h. h) (λ w t h. kept.players w.db _ h) (λ _ h. h))
                  λ _.
                    Triple-bind
                      (Triple-insert
                        (λ w.
                          history_row k q mode r change i (stats_text (request.player_stats q))
                            w.now w.db)
                        (λ _ h. h)
                        (λ w db t h e.
                          history_row-kept P kept k q mode r change i _ w.now w.db db h e)
                        (λ _ h. h))
                      λ _.
                        Triple-execute _ (λ _ h. h)
                          (λ w t h.
                            kept.leaderboard w.db season q (before +ℤ change) r
                              (result_type-ne i request.winner_team) h)
                          (λ _ h. h)

    submit_team-Keeps :
        (i : ℕ) (opponent : ℤ) (qs : List ℕ)
        → Keeps (submit_team {S = S} fl k request season mode i opponent qs)
    unfolding submit_team submit_player
    submit_team-Keeps i opponent [] = Triple-pure _ (λ _ h. h)
    submit_team-Keeps i opponent (q ∷ qs) =
        Triple-bind
          (Triple-bind (Triple-fetch (player_data k q) (λ _ h. h)) λ found.
            Triple-weaken (submit_player_data-Keeps i opponent q found) (λ _ h. h.0) (λ _ _ h. h)
              (λ _ h. h))
          λ _. submit_team-Keeps i opponent qs

    pub submit_teams-Keeps :
        (avgs : List ℤ) (i : ℕ) (ts : List (List ℕ))
        → Keeps (submit_teams {S = S} fl k request season mode avgs i ts)
    unfolding submit_teams
    submit_teams-Keeps avgs i [] = Triple-pure _ (λ _ h. h)
    submit_teams-Keeps avgs i (t ∷ ts) =
        Triple-bind (Triple-or_fail (opponent_avg_mmr i avgs) exception (λ _ h. h)) λ opponent.
          Triple-bind
            (Triple-weaken (submit_team-Keeps i opponent t) (λ _ h. h.0) (λ _ _ h. h) (λ _ h. h))
            λ _. submit_teams-Keeps avgs (i + 1) ts

  parties_idle-Keeps : (ks : List ℕ) → Keeps (parties_idle {S = S} ks)
  unfolding parties_idle
  parties_idle-Keeps [] = Triple-pure _ (λ _ h. h)
  parties_idle-Keeps (k ∷ ks) =
      Triple-bind (Triple-execute _ (λ _ h. h) (λ w t h. kept.parties w.db k w.now h) (λ _ h. h))
        λ _. parties_idle-Keeps ks

  deallocate-Steady : (k : ℕ) → Steady {S = S} (deallocate k)
  unfolding deallocate
  deallocate-Steady k = record {
    same_db = λ w. elim (Option-cases w.allocator) [
      | inl off ↦ rw (off, deallocate) refl
      | inr (a, on) ↦ rw (on, deallocate) refl
    ];
    same_now = λ w. elim (Option-cases w.allocator) [
      | inl off ↦ rw (off, deallocate) refl
      | inr (a, on) ↦ rw (on, deallocate) refl
    ];
  }

module _ (server : RedisServer) (fl : Floats) (calendar : ℕ → ℕ × ℕ) where
  open server use {State}

  -- The whole of `write_result`, whose first statement ends the match.
  pub write_result-Triple :
      (jsonb_as_object : Bool) (now k : ℕ) (request : MatchResultRequest) (metadata : Metadata)
      {Pre P Exc : Database → Type 0}
      → Kept P
      → ((db : Database) (t : ℕ)
          → Pre db
          → P (record db { matches = update_match k (end_match request t) db.matches }))
      → ((db : Database) → Pre db → Exc db)
      → ((db : Database) → P db → Exc db)
      → Triple {S = State} now Pre
          (write_result server jsonb_as_object fl calendar k request metadata)
          (λ _. P)
          Exc
  unfolding write_result
  write_result-Triple jsonb_as_object now k request metadata {P} kept first refused later =
      Triple-bind {Q = λ _. P} (Triple-execute _ refused (λ w t h. first w.db w.now h) later) λ _.
        Triple-weaken {Exc' = P} {Q = λ _. P}
          (Triple-bind (Triple-fetch _ (λ _ h. h)) λ mode.
            Triple-bind
              (Triple-weaken (team_averages-Keeps P kept now fl k metadata.teams) (λ _ h. h.0)
                (λ _ _ h. h) (λ _ h. h))
              λ avgs.
                Triple-bind (Triple-gets (λ w. get_season_id (calendar w.now).0 (calendar w.now).1))
                  λ season.
                    Triple-bind
                      (submit_teams-Keeps P kept now fl k request season mode avgs 0 metadata.teams)
                      λ _. Triple-bind (parties_idle-Keeps P kept now metadata.party_ids) λ _.
                        Triple-bind (Triple-quiet (clear_heartbeat-Quiet server k))
                          λ _. Triple-steady (deallocate-Steady P kept now k) (λ _ h. h))
          (λ _ h. h) (λ _ _ h. h) later
