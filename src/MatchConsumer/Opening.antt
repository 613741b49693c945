-- ===== src/MatchConsumer/Opening.antt =====
-- What each statement of the match consumer's transaction adds to a session.
use matchmaker_platform.Prelude.{
  ℕ, ◌≡◌, refl, String, true, Option, none, some, List, [], ◌∷◌, ◌++◌, is_some, arith, All,
}
use matchmaker_platform.Text.{Text}
use matchmaker_platform.Schema.{Database, Match, MatchPlayer, allocating, active, in_match}
use matchmaker_platform.MatchTables.{
  find_match, find_match_player, insert_match_player, update_match,
}
use matchmaker_platform.MatchTables.Laws.{
  find_match-update_self, find_match-append_self, insert_match-eq-some,
}
use matchmaker_platform.Party.{set_party, set_status}
use matchmaker_platform.Party.Capacity.{IsConsistent, set_party-IsConsistent}
use matchmaker_platform.Party.Safety.{set_status-KeepsSize}
use matchmaker_platform.MatchConsumer.{MatchFound, insert_found, allocating_match, activate}

-- The players have rows in the match.
abbrev pub Enrolled : ℕ → List ℕ → List MatchPlayer → Type 0
Enrolled k players rows = All (λ q. is_some (find_match_player k q rows) ≡ true) players

-- A session inside the transaction: new, with the players so far; `r` is the row of the match.
pub record Opened (k : ℕ) (before : Database) (players : List ℕ) (r : Match → Type 0)
    (db : Database) : Type 0 where
  pub fresh : find_match k before.matches ≡ none
  pub row : (m : Match) × (find_match k db.matches ≡ some m) × r m
  pub enrolled : Enrolled k players db.match_players
  pub consistent : IsConsistent before → IsConsistent db

-- A session that a player can connect to: it is active, and has its endpoint and its token.
abbrev pub IsRunning : Match → Type 0
IsRunning m =
    (m.status ≡ active)
    × (is_some m.server_endpoint ≡ true)
    × (is_some m.server_token ≡ true)
    × (is_some m.started_at ≡ true)

find_match_player-append :
    (k q : ℕ) (ms : List MatchPlayer) (m : MatchPlayer)
    → is_some (find_match_player k q ms) ≡ true
    → is_some (find_match_player k q (ms ++ m ∷ [])) ≡ true
unfolding find_match_player
find_match_player-append k q [] m h = cc
find_match_player-append k q (x ∷ ms) m h = ground (arith, find_match_player-append k q ms m)

find_match_player-append_self :
    (ms : List MatchPlayer) (m : MatchPlayer)
    → is_some (find_match_player m.match_id m.player_id (ms ++ m ∷ [])) ≡ true
unfolding find_match_player
find_match_player-append_self [] m = ground arith
find_match_player-append_self (x ∷ ms) m = ground (arith, find_match_player-append_self ms m)

Enrolled-append :
    (k : ℕ) (qs : List ℕ) (ms : List MatchPlayer) (m : MatchPlayer)
    → m.match_id ≡ k
    → Enrolled k qs ms
    → Enrolled k (qs ++ m.player_id ∷ []) (ms ++ m ∷ [])
Enrolled-append k [] ms m e h = (rw (← e) (find_match_player-append_self ms m), tt)
Enrolled-append k (q ∷ qs) ms m e h =
    (find_match_player-append k q ms m h.0, Enrolled-append k qs ms m e h.1)

insert_match_player-eq-some :
    (m : MatchPlayer) (db db' : Database)
    → insert_match_player m db ≡ some db'
    → db' ≡ record db { match_players = db.match_players ++ m ∷ [] }
unfolding insert_match_player
insert_match_player-eq-some m db db' e = ground arith

pub insert-Opened :
    (k : ℕ) (before : Database) (players : List ℕ) (r : Match → Type 0) (m : MatchPlayer)
    (db db' : Database)
    → m.match_id ≡ k
    → Opened k before players r db
    → insert_match_player m db ≡ some db'
    → Opened k before (players ++ m.player_id ∷ []) r db'
insert-Opened k before players r m db db' e h inserted =
    rw (insert_match_player-eq-some m db db' inserted) (record {
      fresh = h.fresh;
      row = h.row;
      enrolled = Enrolled-append k players db.match_players m e h.enrolled;
      consistent = λ c. let d = h.consistent c in record { fits = d.fits; one_party = d.one_party };
    })

pub insert_found-Opened :
    (k : ℕ) (message : MatchFound) (mode region : Option String) (now : ℕ) (db db' : Database)
    → insert_found k message mode region now db ≡ some db'
    → Opened k db [] (λ m. m.status ≡ allocating) db'
unfolding insert_found
insert_found-Opened k message none region now db db' e = cc
insert_found-Opened k message (some mode) none now db db' e = cc
insert_found-Opened k message (some mode) (some region) now db db' e =
    let m = allocating_match k message mode region now in
    let (absent, result) = insert_match-eq-some m db db' e in
    rw result (record {
      fresh = absent;
      row = (m, find_match-append_self k db.matches m absent refl, refl);
      enrolled = tt;
      consistent = λ c. record { fits = c.fits; one_party = c.one_party };
    })

pub activate-Opened :
    (k now : ℕ) (endpoint token : Text) (before : Database) (players : List ℕ) (r : Match → Type 0)
    (db : Database)
    → Opened k before players r db
    → Opened k before players IsRunning
        (record db { matches = update_match k (activate endpoint token now) db.matches })
activate-Opened k now endpoint token before players r db h = record {
  fresh = h.fresh;
  row = (
    activate endpoint token now h.row.0,
    rw (find_match-update_self k (activate endpoint token now) db.matches (λ m. refl), h.row.1)
        refl,
    (refl, refl, refl, refl),
  );
  enrolled = h.enrolled;
  consistent = λ c. let d = h.consistent c in record { fits = d.fits; one_party = d.one_party };
}

pub set_party-Opened :
    (k j now : ℕ) (before : Database) (players : List ℕ) (r : Match → Type 0) (db : Database)
    → Opened k before players r db
    → Opened k before players r (set_party j (set_status in_match now) db)
set_party-Opened k j now before players r db h = record {
  fresh = h.fresh;
  row = h.row;
  enrolled = h.enrolled;
  consistent = λ c.
      set_party-IsConsistent j (set_status in_match now) db (set_status-KeepsSize in_match now)
        (h.consistent c);
}
