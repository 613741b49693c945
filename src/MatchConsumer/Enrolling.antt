-- ===== src/MatchConsumer/Enrolling.antt =====
-- What the loops of the match consumer do while nothing fails: the exact tables they leave.
use matchmaker_platform.Prelude.{
  ℕ, ◌+◌, ◌≡◌, refl, ◌∙◌, ◌≢◌, true, Option, none, some, List, [], ◌∷◌, ◌++◌, is_some, arith, All,
  inl, inr, Option-cases,
}
use mathlib.Core.List.{append_assoc, append-nil}
use matchmaker_platform.Prelude.Int.{ℤ, pos}
use matchmaker_platform.Schema.{Database, Player, Match, MatchPlayer, in_match}
use matchmaker_platform.Tables.{find_player}
use matchmaker_platform.MatchTables.{find_match, find_match_player, insert_match_player}
use matchmaker_platform.Party.{set_party, set_status}
use matchmaker_platform.Api.{World, ok, broadcast, actions}
use matchmaker_platform.Sockets.{Message}
use matchmaker_platform.MatchConsumer.{
  broadcast_match_found_to_parties, all_player_ids, new_match_player, enroll_player, enroll_team,
  enroll_teams, parties_in_match,
}

abbrev pub mmr_of : Option Player → ℤ
mmr_of none = pos 0
mmr_of (some p) = p.mmr

-- The rows of one team, with the current ratings.
abbrev pub entries : ℕ → ℕ → List Player → List ℕ → List MatchPlayer
entries k i ps [] = []
entries k i ps (q ∷ qs) = new_match_player k q i (mmr_of (find_player q ps)) ∷ entries k i ps qs

abbrev pub all_entries : ℕ → ℕ → List Player → List (List ℕ) → List MatchPlayer
all_entries k i ps [] = []
all_entries k i ps (t ∷ ts) = entries k i ps t ++ all_entries k (i + 1) ps ts

-- Every player has an account, is named once, and has no row in the match yet.
abbrev pub CanEnroll : ℕ → List Player → List MatchPlayer → List ℕ → Type 0
CanEnroll k ps rows [] = Unit
CanEnroll k ps rows (q ∷ qs) =
    (is_some (find_player q ps) ≡ true)
    × (find_match_player k q rows ≡ none)
    × All (λ r. q ≢ r) qs
    × CanEnroll k ps rows qs

find_match_player-append_ne :
    (k q : ℕ) (m : MatchPlayer) (rows : List MatchPlayer)
    → m.player_id ≢ q
    → find_match_player k q rows ≡ none
    → find_match_player k q (rows ++ m ∷ []) ≡ none
unfolding find_match_player
find_match_player-append_ne k q m [] ne h = ground arith
find_match_player-append_ne k q m (x ∷ rows) ne h =
    ground (arith, find_match_player-append_ne k q m rows ne)

CanEnroll-append :
    (k q : ℕ) (ps : List Player) (m : MatchPlayer) (rows : List MatchPlayer) (qs : List ℕ)
    → m.player_id ≡ q
    → All (λ r. q ≢ r) qs
    → CanEnroll k ps rows qs
    → CanEnroll k ps (rows ++ m ∷ []) qs
CanEnroll-append k q ps m rows [] e ne h = tt
CanEnroll-append k q ps m rows (r ∷ qs) e ne h = (
  h.0,
  find_match_player-append_ne k r m rows (λ x. ne.0 (cc (e, x))) h.1,
  h.2,
  CanEnroll-append k q ps m rows qs e ne.1 h.3,
)

inserted :
    (k i q : ℕ) (mmr : ℤ) (db : Database)
    → is_some (find_match k db.matches) ≡ true
    → is_some (find_player q db.players) ≡ true
    → find_match_player k q db.match_players ≡ none
    → insert_match_player (new_match_player k q i mmr) db
      ≡ some (record db { match_players = db.match_players ++ new_match_player k q i mmr ∷ [] })
unfolding insert_match_player
inserted k i q mmr db there account absent = rw (there, account, absent) refl

All-front : (P : ℕ → Type 0) (t u : List ℕ) → All P (t ++ u) → All P t
All-front P [] u h = tt
All-front P (x ∷ t) u h = (h.0, All-front P t u h.1)

CanEnroll-front :
    (k : ℕ) (ps : List Player) (rows : List MatchPlayer) (t u : List ℕ)
    → CanEnroll k ps rows (t ++ u)
    → CanEnroll k ps rows t
CanEnroll-front k ps rows [] u h = tt
CanEnroll-front k ps rows (q ∷ t) u h =
    (h.0, h.1, All-front (λ r. q ≢ r) t u h.2, CanEnroll-front k ps rows t u h.3)

CanEnroll-back :
    (k i : ℕ) (ps : List Player) (rows : List MatchPlayer) (t u : List ℕ)
    → CanEnroll k ps rows (t ++ u)
    → CanEnroll k ps (rows ++ entries k i ps t) u
CanEnroll-back k i ps rows [] u h = rw (append-nil rows) h
CanEnroll-back k i ps rows (q ∷ t) u h =
    let e = new_match_player k q i (mmr_of (find_player q ps)) in
    rw (← append_assoc rows (e ∷ []) (entries k i ps t)) (
      CanEnroll-back k i ps (rows ++ e ∷ []) t u
        (CanEnroll-append k q ps e rows (t ++ u) refl h.2 h.3))

-- The tables with the parties in the match.
abbrev pub in_match_db : List ℕ → ℕ → Database → Database
in_match_db [] now db = db
in_match_db (j ∷ js) now db = in_match_db js now (set_party j (set_status in_match now) db)

pub in_match_db-matches :
    (js : List ℕ) (now : ℕ) (db : Database) → (in_match_db js now db).matches ≡ db.matches
in_match_db-matches [] now db = refl
in_match_db-matches (j ∷ js) now db =
    in_match_db-matches js now (set_party j (set_status in_match now) db)

pub has_row : {o : Option Match} {m : Match} → o ≡ some m → o ≡ none → ⊥
has_row e h = cc

has_account : {o : Option Player} → o ≡ none → is_some o ≡ true → ⊥
has_account e h = cc

module _ {S : Type 0} where
  -- The world with more rows in game.match_player, and no fault to come.
  abbrev pub enrolled_world : World S → List MatchPlayer → World S
  enrolled_world w rows = record w {
    db = record w.db { match_players = w.db.match_players ++ rows };
    faults = [];
  }

  enroll_player-runs :
      (k i q : ℕ) (p : Player) (w : World S)
      → w.faults ≡ []
      → is_some (find_match k w.db.matches) ≡ true
      → find_player q w.db.players ≡ some p
      → find_match_player k q w.db.match_players ≡ none
      → enroll_player k i q w ≡ (
        ok tt,
        enrolled_world w (new_match_player k q i (mmr_of (find_player q w.db.players)) ∷ []),
      )
  unfolding enroll_player actions
  enroll_player-runs k i q p w calm there account absent =
      rw (calm, account, inserted k i q p.mmr w.db there (rw account refl) absent) refl

  enroll_team-runs :
      (k i : ℕ) (qs : List ℕ) (w : World S)
      → w.faults ≡ []
      → is_some (find_match k w.db.matches) ≡ true
      → CanEnroll k w.db.players w.db.match_players qs
      → enroll_team k i qs w ≡ (ok tt, enrolled_world w (entries k i w.db.players qs))
  unfolding enroll_team
  enroll_team-runs k i [] w calm there h = rw (append-nil w.db.match_players, ← calm) refl
  enroll_team-runs k i (q ∷ qs) w calm there h = elim (Option-cases (find_player q w.db.players)) [
    | inl gone ↦ absurd (has_account gone h.0)
    | inr (p, account) ↦
        let e = new_match_player k q i (mmr_of (find_player q w.db.players)) in
        let next = enrolled_world w (e ∷ []) in
        let rest =
          enroll_team-runs k i qs next refl there
            (CanEnroll-append k q w.db.players e w.db.match_players qs refl h.2 h.3) in
        rw (enroll_player-runs k i q p w calm there account h.1)
          (rest ∙ rw (append_assoc w.db.match_players (e ∷ []) (entries k i w.db.players qs)) refl)
  ]

  pub enroll_teams-runs :
      (k i : ℕ) (ts : List (List ℕ)) (w : World S)
      → w.faults ≡ []
      → is_some (find_match k w.db.matches) ≡ true
      → CanEnroll k w.db.players w.db.match_players (all_player_ids ts)
      → enroll_teams k i ts w ≡ (ok tt, enrolled_world w (all_entries k i w.db.players ts))
  unfolding enroll_teams all_player_ids
  enroll_teams-runs k i [] w calm there h = rw (append-nil w.db.match_players, ← calm) refl
  enroll_teams-runs k i (t ∷ ts) w calm there h =
      let ps = w.db.players in
      let rows = w.db.match_players in
      let rest =
        enroll_teams-runs k (i + 1) ts (enrolled_world w (entries k i ps t)) refl there
          (CanEnroll-back k i ps rows t (all_player_ids ts) h) in
      rw (enroll_team-runs k i t w calm there (CanEnroll-front k ps rows t (all_player_ids ts) h))
        (rest ∙ rw (append_assoc rows (entries k i ps t) (all_entries k (i + 1) ps ts)) refl)

  pub parties_in_match-runs :
      (js : List ℕ) (w : World S)
      → w.faults ≡ []
      → parties_in_match js w ≡ (ok tt, record w { db = in_match_db js w.now w.db; faults = [] })
  unfolding parties_in_match actions
  parties_in_match-runs [] w calm = rw (← calm) refl
  parties_in_match-runs (j ∷ js) w calm = rw calm (
      parties_in_match-runs js
        (record w { db = set_party j (set_status in_match w.now) w.db; faults = [] }) refl)

  pub broadcast_all_db :
      (ks : List ℕ) (m : Message) (w : World S)
      → (broadcast_match_found_to_parties ks m w).1.db ≡ w.db
  unfolding broadcast_match_found_to_parties broadcast
  broadcast_all_db [] m w = refl
  broadcast_all_db (k ∷ ks) m w = broadcast_all_db ks m (broadcast k m w).1
