-- ===== src/MatchTables/Laws.antt =====
-- Laws of the statements on matches and the leaderboard.
use matchmaker_platform.Prelude.{
  ℕ, ◌+◌, ◌≡◌, refl, ◌≢◌, Option, none, some, List, [], ◌∷◌, ◌++◌, ◌==◌, arith, All, ◌&&◌,
  Bool-cases, inl, inr,
}
use matchmaker_platform.Prelude.Int.{ℤ}
use matchmaker_platform.Schema.{Database, Match, MatchResult, win, loss, draw, LeaderboardRow}
use matchmaker_platform.MatchTables.{find_match, update_match, insert_match, upsert_leaderboard}
use matchmaker_platform.Text.{Text}
use matchmaker_platform.SessionManager.{same_text}

abbrev pub map_match : (Match → Match) → Option Match → Option Match
map_match f none = none
map_match f (some m) = some (f m)

pub find_match-update_self :
    (k : ℕ) (f : Match → Match) (ms : List Match)
    → ((m : Match) → (f m).id ≡ m.id)
    → find_match k (update_match k f ms) ≡ map_match f (find_match k ms)
unfolding find_match update_match
find_match-update_self k f [] h = refl
find_match-update_self k f (m ∷ ms) h = ground (arith, h m, find_match-update_self k f ms h)

pub find_match-append_self :
    (k : ℕ) (ms : List Match) (m : Match)
    → find_match k ms ≡ none
    → m.id ≡ k
    → find_match k (ms ++ m ∷ []) ≡ some m
unfolding find_match
find_match-append_self k [] m h e = ground arith
find_match-append_self k (x ∷ ms) m h e = ground (arith, find_match-append_self k ms m)

pub insert_match-eq-some :
    (m : Match) (db db' : Database)
    → insert_match m db ≡ some db'
    → (find_match m.id db.matches ≡ none) × (db' ≡ record db { matches = db.matches ++ m ∷ [] })
unfolding insert_match
insert_match-eq-some m db db' e = ground arith

-- Every row counts as many games as wins and losses.
abbrev pub IsBalanced : List LeaderboardRow → Type 0
IsBalanced = All (λ l. l.games_played ≡ l.wins + l.losses)

pub upsert_leaderboard-IsBalanced :
    (season : Text) (q : ℕ) (rating : ℤ) (r : MatchResult) (ls : List LeaderboardRow)
    → r ≢ draw
    → IsBalanced ls
    → IsBalanced (upsert_leaderboard season q rating r ls)
unfolding upsert_leaderboard
upsert_leaderboard-IsBalanced season q rating win [] d h = (omega arith, tt)
upsert_leaderboard-IsBalanced season q rating loss [] d h = (omega arith, tt)
upsert_leaderboard-IsBalanced season q rating draw ls d h = absurd (d refl)
upsert_leaderboard-IsBalanced season q rating win (l ∷ ls) d h =
    elim (Bool-cases (same_text l.season season && l.player_id == q)) [
      | inl e ↦ rw e (omega arith, h.1)
      | inr e ↦ rw e (h.0, upsert_leaderboard-IsBalanced season q rating win ls d h.1)
    ]
upsert_leaderboard-IsBalanced season q rating loss (l ∷ ls) d h =
    elim (Bool-cases (same_text l.season season && l.player_id == q)) [
      | inl e ↦ rw e (omega arith, h.1)
      | inr e ↦ rw e (h.0, upsert_leaderboard-IsBalanced season q rating loss ls d h.1)
    ]
