-- ===== src/Tests/Ties.antt =====
-- Pages of services/api/routes/leaderboard.py where two players have the same rating and number of
-- wins: an order of the rows that PostgreSQL may choose, by which one of them is shown twice.
use mathlib.Core.List.{Perm}
use mathlib.Core.List.Perm
use matchmaker_platform.Prelude.{ℕ, zero, suc, ◌≡◌, refl, List, [], ◌∷◌}
use matchmaker_platform.Text.{codes}
use matchmaker_platform.Schema.{Database}
use matchmaker_platform.Tables.{find_player}
use matchmaker_platform.SessionManager.{same_text}
use matchmaker_platform.OrderBy.{OrderBy}
use matchmaker_platform.OrderBy.Insertion.{sort_rows, sort_rows-Perm, sort_rows-IsOrdered}
use matchmaker_platform.Api.{actions}
use matchmaker_platform.Leaderboard.{
  Standing, LeaderboardEntry, ranked_before, in_season, with_names, leaderboard_entries,
  get_leaderboard,
}
use matchmaker_platform.Leaderboard.Pages.{first_pages}
use matchmaker_platform.Tests.{no_parties, world, hundredths}
use matchmaker_platform.Tests.Requests.{ranked_total, ranked_trans, standing}

abbrev move_last : Standing → List Standing → List Standing
move_last x [] = x ∷ []
move_last x (y ∷ ys) = y ∷ move_last x ys

move_last-Perm : (x : Standing) (ys : List Standing) → Perm (move_last x ys) (x ∷ ys)
move_last-Perm x [] = Perm.rfl
move_last-Perm x (y ∷ ys) = Perm.trans (Perm.cons' refl (move_last-Perm x ys)) (Perm.swap x y ys)

-- The first query reads the table from its start, the others from its second row.
abbrev scanned : ℕ → List Standing → List Standing
scanned zero xs = xs
scanned (suc n) [] = []
scanned (suc n) (x ∷ xs) = move_last x xs

scanned-Perm : (n : ℕ) (xs : List Standing) → Perm (scanned n xs) xs
scanned-Perm zero xs = Perm.rfl
scanned-Perm (suc n) [] = Perm.rfl
scanned-Perm (suc n) (x ∷ xs) = move_last-Perm x xs

abbrev changing : OrderBy ranked_before
changing = record {
  order = λ limit offset xs. sort_rows ranked_before ranked_total ranked_trans (scanned offset xs);
  order-Perm = λ limit offset xs.
      Perm.trans (sort_rows-Perm ranked_before ranked_total ranked_trans (scanned offset xs))
        (scanned-Perm offset xs);
  order-Pairwise = λ limit offset xs.
      sort_rows-IsOrdered ranked_before ranked_total ranked_trans (scanned offset xs);
}

abbrev two_equal : Database
two_equal = record no_parties { leaderboard = standing 1 1200 ∷ standing 2 1200 ∷ [] }

abbrev players_of : {F : Type 0} → List (LeaderboardEntry F) → List ℕ
players_of [] = []
players_of (e ∷ es) = e.player_id ∷ players_of es

shown_twice :
    players_of (first_pages hundredths changing (codes "2025-Q4") 1 (λ i. world two_equal) 2)
    ≡ 1 ∷ 1 ∷ []
unfolding first_pages get_leaderboard actions in_season with_names find_player same_text
    leaderboard_entries
shown_twice = refl
