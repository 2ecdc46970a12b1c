-- ===== src/TestCases/Points.antt =====
-- `generateEvenPoints` and `calculateScoringSummary` of admin-frontend/src/lib/testcase-utils.ts,
-- for scores and points that are natural numbers.
pub mod Even
pub mod Scoring
use algo_test.Prelude.{
  ℕ, zero, suc, ◌+◌, ◌/◌, ◌%◌, ◌==◌, Bool, true, false, ◌&&◌, ◌||◌, not, Option, none, some, List,
  [], ◌∷◌, if◌then◌else◌, length, ltb, leb, all, sum, map, get_or_else,
}

-- `base + (i < remainder ? 1 : 0)`
abbrev pub share : ℕ → ℕ → ℕ → ℕ
share base remainder i = base + (if ltb i remainder then 1 else 0)

-- The shares at `i`, `i + 1`, …, as many as `count`.
unfoldable pub shares_from : ℕ → ℕ → ℕ → ℕ → List ℕ
shares_from base remainder i zero = []
shares_from base remainder i (suc count) =
    share base remainder i ∷ shares_from base remainder (suc i) count

unfoldable pub generate_even_points : ℕ → ℕ → List ℕ
unfolding shares_from
generate_even_points count max_score =
    if count == 0 || max_score == 0
    then []
    else shares_from (max_score / count) (max_score % count) 0 count

pub record ScoringSummary : Type 0 where
  pub custom_points_sum : ℕ
  pub has_custom_points : Bool
  pub auto_point_per_test : ℕ
  pub has_minimum_cases : Bool

abbrev pub min_evaluation_test_cases : ℕ
min_evaluation_test_cases = 5

-- `Number(t.points) === n`; points that are missing are NaN, which equals nothing.
abbrev pub is_points : ℕ → Option ℕ → Bool
is_points n none = false
is_points n (some m) = m == n

-- `tests.every((t, i) => …)` from the index `i` on.
unfoldable pub every_share : ℕ → ℕ → ℕ → List (Option ℕ) → Bool
every_share base remainder i [] = true
every_share base remainder i (p ∷ ps) =
    is_points (share base remainder i) p && every_share base remainder (suc i) ps

unfoldable pub points_sum : List (Option ℕ) → ℕ
points_sum [] = 0
points_sum (p ∷ ps) = get_or_else p 0 + points_sum ps

-- `tests.length === 0`
abbrev pub no_tests : List (Option ℕ) → Bool
no_tests [] = true
no_tests (p ∷ ps) = false

-- A test is given by its points, all that the function reads of it.
unfoldable pub is_even_distribution : List (Option ℕ) → ℕ → Bool
is_even_distribution tests max_score =
    no_tests tests
    || (all (is_points 0) tests
        || (points_sum tests == max_score
            && every_share (max_score / length tests) (max_score % length tests) 0 tests))

unfoldable pub calculate_scoring_summary : List (Option ℕ) → ℕ → ScoringSummary
unfolding is_even_distribution
calculate_scoring_summary tests max_score = record {
  custom_points_sum = points_sum tests;
  has_custom_points = not (is_even_distribution tests max_score);
  auto_point_per_test = if ltb 0 (length tests) then max_score / length tests else 0;
  has_minimum_cases = leb min_evaluation_test_cases (length tests);
}
