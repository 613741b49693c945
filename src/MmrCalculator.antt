-- ===== src/MmrCalculator.antt =====
-- services/api/utils/mmr_calculator.py. Python's floats are given from outside: the operations of
-- `Floats` are those that the code applies, and `none` is the exception that they raise.
use matchmaker_platform.Prelude.{
  ℕ, ◌+◌, ◌-◌, ◌/◌, Option, none, some, List, [], ◌∷◌, ◌++◌, length, Bool, if◌then◌else◌,
}
use matchmaker_platform.Prelude.Int.{ℤ, pos, ◌-ℤ◌, sum}
use matchmaker_platform.Schema.{MatchResult, win, loss, draw}
use matchmaker_platform.Text.{Text, codes, decimal}

pub record Floats : Type 1 where
  pub F : Type 0
  pub of_int : ℤ → F
  pub half : F
  pub add : F → F → F
  pub sub : F → F → F
  pub mul : F → F → F
  pub div : F → F → F
  -- 10 ** x, which raises OverflowError beyond the largest float
  pub pow_ten : F → Option F
  -- int(x), towards zero, which raises on NaN and on the infinities
  pub truncate : F → Option ℤ

abbrev pub default_k_factor : ℤ
default_k_factor = pos 32

abbrev pub base_mmr : ℤ
base_mmr = pos 1500

module _ (fl : Floats) where
  open fl use {F, of_int, half, add, sub, mul, div, pow_ten, truncate}

  -- 1 / (1 + 10 ** ((rating_b - rating_a) / 400))
  unfoldable pub calculate_expected_score : ℤ → ℤ → Option F
  calculate_expected_score rating_a rating_b =
      elim (pow_ten (div (of_int (rating_b -ℤ rating_a)) (of_int (pos 400)))) [
        | none ↦ none
        | some power ↦ some (div (of_int (pos 1)) (add (of_int (pos 1)) power))
      ]

  -- score_map
  abbrev pub actual_score : MatchResult → F
  actual_score win = of_int (pos 1)
  actual_score draw = half
  actual_score loss = of_int (pos 0)

  -- int(k_factor * (actual_score - expected_score))
  unfoldable pub calculate_mmr_change : ℤ → ℤ → MatchResult → ℤ → Option ℤ
  unfolding calculate_expected_score
  calculate_mmr_change player_rating opponent_avg_rating result k_factor =
      elim (calculate_expected_score player_rating opponent_avg_rating) [
        | none ↦ none
        | some expected ↦ truncate (mul (of_int k_factor) (sub (actual_score result) expected))
      ]

  -- int(sum(mmrs) / len(mmrs)) if mmrs else 1500, as `submit_match_result` computes it
  unfoldable pub team_average : List ℤ → Option ℤ
  team_average [] = some (pos 1500)
  team_average (m ∷ ms) = truncate (div (of_int (sum (m ∷ ms))) (of_int (pos (length (m ∷ ms)))))

-- f"{now.year}-Q{(now.month - 1) // 3 + 1}"
unfoldable pub get_season_id : ℕ → ℕ → Text
get_season_id year month = decimal year ++ (codes "-Q" ++ decimal ((month - 1) / 3 + 1))

-- calculate_team_mmr_changes, which stops at the first exception
unfoldable pub calculate_team_mmr_changes : (fl : Floats) → List ℤ → ℤ → Bool → ℤ → Option (List ℤ)
calculate_team_mmr_changes fl [] opponent_avg_rating won k_factor = some []
calculate_team_mmr_changes fl (r ∷ rs) opponent_avg_rating won k_factor =
    let rest = calculate_team_mmr_changes fl rs opponent_avg_rating won k_factor in
    elim (calculate_mmr_change fl r opponent_avg_rating (if won then win else loss) k_factor) [
      | none ↦ none
      | some change ↦ elim rest [ none ↦ none | some changes ↦ some (change ∷ changes) ]
    ]
