-- ===== src/Leaderboard/Pages.antt =====
-- The pages of get_leaderboard (services/api/routes/leaderboard.py), one after the other.
use native.Mathlib.Numerals.{unary_clauses}
use text.Mathlib.TextEquality.{IsScalar-prop}
use native.Mathlib.Nat.{zero-mul, suc-mul, zero-add, suc-add, add-suc}
use matchmaker_platform.Prelude.{
  ℕ, zero, suc, ◌+◌, ◌-◌, ◌*◌, ◌≡◌, refl, sym, ap, ◌∙◌, true, List, [], ◌∷◌, ◌++◌, arith, take,
  drop,
}
use matchmaker_platform.Text.{Text}
use matchmaker_platform.Schema.{Database}
use matchmaker_platform.OrderBy.{OrderBy, rows_at, has_no_ties, order-same}
use matchmaker_platform.MmrCalculator.{Floats}
use matchmaker_platform.Api.{World, Outcome, ok, raise, actions}
use matchmaker_platform.Leaderboard.{
  LeaderboardEntry, LeaderboardResponse, Standing, ranked_before, standings, leaderboard_entry,
  leaderboard_entries, get_leaderboard,
}

take_sum : {A : Type 0} (a b : ℕ) (xs : List A) → take (a + b) xs ≡ take a xs ++ take b (drop a xs)
take_sum zero b xs = rw (zero-add b) refl
take_sum (suc a) zero [] = simp unary_clauses refl
take_sum (suc a) (suc b) [] = simp unary_clauses refl
take_sum (suc a) b (x ∷ xs) = rw (suc-add a b) (ap (λ l. x ∷ l) (take_sum a b xs))

leaderboard_entries-take :
    (fl : Floats) (n b : ℕ) (ss : List Standing)
    → take b (leaderboard_entries fl n ss) ≡ leaderboard_entries fl n (take b ss)
unfolding leaderboard_entries
leaderboard_entries-take fl n zero ss = refl
leaderboard_entries-take fl n (suc b) [] = refl
leaderboard_entries-take fl n (suc b) (s ∷ ss) =
    ap (λ l. leaderboard_entry fl n s ∷ l) (leaderboard_entries-take fl (suc n) b ss)

-- A page of the numbered rows is the numbered page of the rows.
leaderboard_entries-page :
    (fl : Floats) (n a b : ℕ) (ss : List Standing)
    → take b (drop a (leaderboard_entries fl n ss))
      ≡ leaderboard_entries fl (a + n) (take b (drop a ss))
unfolding leaderboard_entries
leaderboard_entries-page fl n zero b ss = rw (zero-add n) (leaderboard_entries-take fl n b ss)
leaderboard_entries-page fl n (suc a) zero [] = refl
leaderboard_entries-page fl n (suc a) (suc b) [] = refl
leaderboard_entries-page fl n (suc a) b (s ∷ ss) =
    rw (suc-add a n, sym (add-suc a n)) (leaderboard_entries-page fl (suc n) a b ss)

Standing_set : IsSet Standing
Standing_set = hlevel IsScalar-prop

ranked_before_refl : (s : Standing) → ranked_before s s ≡ true
ranked_before_refl s = ground (arith, s.row.rating)

-- The ranking of a season: all rows in their order, numbered from 1.
abbrev pub ranking :
    (fl : Floats) → OrderBy ranked_before → Text → Database → List (LeaderboardEntry fl.F)
ranking fl by_rating season db =
    leaderboard_entries fl 1 (by_rating.order 0 0 (standings season db))

abbrev entries_in : {F : Type 0} → Outcome (LeaderboardResponse F) → List (LeaderboardEntry F)
entries_in (ok r) = r.entries
entries_in (raise e) = []

module _ {S : Type 0} (fl : Floats) (by_rating : OrderBy ranked_before) (season : Text)
    (page_size : ℕ) where
  -- What the pages 1, ..., n show, each of them asked for in a world of its own.
  unfoldable pub first_pages : (ℕ → World S) → ℕ → List (LeaderboardEntry fl.F)
  first_pages ws zero = []
  first_pages ws (suc n) =
      first_pages ws n
      ++ entries_in (get_leaderboard fl by_rating season (suc n) page_size (ws n)).0

  -- One page is a part of the ranking.
  page_entries :
      (w : World S)
      → w.faults ≡ []
      → has_no_ties ranked_before (standings season w.db) ≡ true
      → (n : ℕ)
      → entries_in (get_leaderboard fl by_rating season (suc n) page_size w).0
        ≡ take page_size (drop (n * page_size) (ranking fl by_rating season w.db))
  unfolding get_leaderboard actions
  page_entries w calm t n =
      let o =
        order-same Standing_set ranked_before_refl by_rating (standings season w.db) t page_size
          (n * page_size) in
      let e : suc n - 1 ≡ n = omega arith in
      rw
        (
          calm,
          e,
          leaderboard_entries-page fl 1 (n * page_size) page_size
              (by_rating.order 0 0 (standings season w.db)),
          rows_at,
          o,
        )
        refl

  -- While no statement fails and the tables stay as they are between the requests, and where no two
  -- players of the season have the same rating and the same number of wins, the first n pages that
  -- are asked for, joined, are the first n * page_size entries of the ranking: no player is skipped or
  -- shown twice. An entry has the rank that its row stores, or else its place in the ranking.
  pub first_pages-ranking :
      (db : Database) (ws : ℕ → World S)
      → ((i : ℕ) → (ws i).faults ≡ [])
      → ((i : ℕ) → (ws i).db ≡ db)
      → has_no_ties ranked_before (standings season db) ≡ true
      → (n : ℕ) → first_pages ws n ≡ take (n * page_size) (ranking fl by_rating season db)
  unfolding first_pages
  first_pages-ranking db ws calm same t zero = rw (zero-mul page_size) refl
  first_pages-ranking db ws calm same t (suc n) =
      let all = ranking fl by_rating season db in
      let page : entries_in (get_leaderboard fl by_rating season (suc n) page_size (ws n)).0
          ≡ take page_size (drop (n * page_size) all) =
        page_entries (ws n) (calm n) (rw (same n) t) n
        ∙ ap (λ d. take page_size (drop (n * page_size) (ranking fl by_rating season d)))
            (same n) in
      rw (suc-mul n page_size, take_sum (n * page_size) page_size all, page)
        (ap (λ l. l ++ take page_size (drop (n * page_size) all))
          (first_pages-ranking db ws calm same t n))
