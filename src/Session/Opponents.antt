-- ===== src/Session/Opponents.antt =====
-- `team_avg_mmrs[1 - team_idx]` of submit_match_result (services/api/routes/session.py): which
-- average a team is compared with.
use matchmaker_platform.Prelude.{
  ℕ, suc, zero, ◌+◌, ◌*◌, ◌<◌, ◌≤◌, ◌≡◌, refl, true, is_some, List, [], ◌∷◌, arith, length,
  get_elem?, ltb, Bool-cases, inl, inr,
}
use matchmaker_platform.Prelude.Int.{ℤ}
use matchmaker_platform.Session.{opponent_index, opponent_avg_mmr}

get_elem?-is_some : (xs : List ℤ) (i : ℕ) → i < length xs → is_some (get_elem? xs i) ≡ true
get_elem?-is_some [] i h = absurd (omega arith)
get_elem?-is_some (x ∷ xs) zero h = refl
get_elem?-is_some (x ∷ xs) (suc i) h = get_elem?-is_some xs i (omega arith)

opponent_index-lt : (i n : ℕ) → i < n → ltb 1 n ≡ true → opponent_index i n < n
unfolding opponent_index
opponent_index-lt i n h two = ground arith

-- No team is without an average to compare with: for the index of a team, the list lookup of
-- submit_match_result raises no IndexError, however many teams there are.
pub opponent_avg_mmr-is_some :
    (i : ℕ) (avgs : List ℤ) → i < length avgs → is_some (opponent_avg_mmr i avgs) ≡ true
unfolding opponent_avg_mmr
opponent_avg_mmr-is_some i avgs h = elim (Bool-cases (ltb 1 (length avgs))) [
  | inl two ↦ rw two (
      get_elem?-is_some avgs (opponent_index i (length avgs))
        (opponent_index-lt i (length avgs) h two))
  | inr one ↦ rw one refl
]

-- Of two teams each is compared with the other; among three or more, an odd number 2m + 1, team
-- m + 1 is compared with itself.
pub opponent_index-teams :
    (i m : ℕ)
    → i < 2
    → 1 ≤ m
    → (opponent_index i 2 + i ≡ 1) × (opponent_index (m + 1) (2 * m + 1) ≡ m + 1)
unfolding opponent_index
opponent_index-teams i m h one = (ground arith, ground arith)
