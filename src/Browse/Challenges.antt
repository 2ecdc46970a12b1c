-- ===== src/Browse/Challenges.antt =====
-- competitor-frontend/src/components/challenges/challenges-list-client.tsx: the challenges, filtered
-- and sorted, with the score of the contestant. `localeCompare` is a parameter.
pub mod Ranks
use algo_test.Prelude.{
  ℕ, ◌+◌, ◌*◌, ◌/◌, min, Bool, true, false, ◌&&◌, ◌||◌, not, String, Option, none, some, List, [],
  ◌∷◌, if◌then◌else◌, Text, codes, text_eq, trim, is_blank, ltb, select, length, sum, map, Map, get,
  get_or_else,
}
use algo_test.Browse.{sort_by, contains}

-- `Problem` of competitor-frontend/src/types/problem.ts, without the samples and the subtasks, which
-- the list does not read.
pub data Difficulty : Type 0 where
  easy medium hard : Difficulty

pub record Problem : Type 0 where
  pub id : String
  pub slug : Text
  pub title : Text
  pub difficulty : Difficulty
  pub points : ℕ
  pub time_limit_ms : ℕ
  pub memory_limit_mb : ℕ
  pub statement : Text
  pub constraints : Text

-- competitor-frontend/src/types/challenge.ts
pub data ChallengeStatus : Type 0 where
  not_attempted attempted solved : ChallengeStatus

pub record ChallengeProgress : Type 0 where
  pub problem_id : String
  pub status : ChallengeStatus
  pub best_score : ℕ

pub data ChallengeSortOption : Type 0 where
  default points_desc points_asc difficulty_asc difficulty_desc title_asc : ChallengeSortOption

pub data StatusFilter : Type 0 where
  all_statuses only_solved in_progress unsolved : StatusFilter

-- The values of `DIFFICULTY`.
abbrev pub difficulty_text : Difficulty → Text
difficulty_text easy = codes "Easy"
difficulty_text medium = codes "Medium"
difficulty_text hard = codes "Hard"

-- `difficulty.toUpperCase()`, which the filter compares.
abbrev pub difficulty_upper : Difficulty → Text
difficulty_upper easy = codes "EASY"
difficulty_upper medium = codes "MEDIUM"
difficulty_upper hard = codes "HARD"

-- `DIFFICULTY_RANKS[difficulty] ?? 99`
unfoldable pub difficulty_rank : Text → ℕ
difficulty_rank difficulty =
    if text_eq difficulty (codes "EASY")
    then 1
    else if text_eq difficulty (codes "MEDIUM")
    then 2
    else if text_eq difficulty (codes "HARD")
    then 3
    else 99

-- What the component holds; a difficulty that is not chosen is `ALL`.
pub record ChallengeView : Type 0 where
  pub search : Text
  pub status_filter : StatusFilter
  pub difficulty_filter : Option Difficulty
  pub sort_by_option : ChallengeSortOption

abbrev pub status_of : Map ChallengeProgress → Problem → ChallengeStatus
status_of progress problem = elim (get problem.id progress) [
  | none ↦ not_attempted
  | some p ↦ p.status
]

abbrev pub is_solved : ChallengeStatus → Bool
is_solved solved = true
is_solved _ = false

abbrev is_attempted : ChallengeStatus → Bool
is_attempted attempted = true
is_attempted _ = false

abbrev pub has_status : StatusFilter → ChallengeStatus → Bool
has_status all_statuses status = true
has_status only_solved status = is_solved status
has_status in_progress status = is_attempted status
has_status unsolved status = not (is_solved status)

abbrev pub has_difficulty : Option Difficulty → Difficulty → Bool
has_difficulty none difficulty = true
has_difficulty (some wanted) difficulty =
    text_eq (difficulty_upper difficulty) (difficulty_upper wanted)

abbrev pub is_found : Text → Problem → Bool
is_found search problem =
    is_blank (trim search) || contains problem.title search || contains problem.statement search

unfoldable pub filtered_problems :
    ChallengeView → Map ChallengeProgress → List Problem → List Problem
unfolding trim
filtered_problems view progress problems =
    select
      (λ problem.
        is_found view.search problem
        && has_status view.status_filter (status_of progress problem)
        && has_difficulty view.difficulty_filter problem.difficulty)
      problems

module _ (locale_before : Text → Text → Bool) where
  -- Whether the comparison of two problems is below zero.
  unfoldable pub comes_before : ChallengeSortOption → Problem → Problem → Bool
  unfolding difficulty_rank
  comes_before points_desc a b = ltb b.points a.points
  comes_before points_asc a b = ltb a.points b.points
  comes_before title_asc a b = locale_before a.title b.title
  comes_before difficulty_asc a b =
      ltb (difficulty_rank (difficulty_text a.difficulty))
        (difficulty_rank (difficulty_text b.difficulty))
  comes_before difficulty_desc a b =
      ltb (difficulty_rank (difficulty_text b.difficulty))
        (difficulty_rank (difficulty_text a.difficulty))
  comes_before default a b = false

  unfoldable pub sorted_problems :
      ChallengeView → Map ChallengeProgress → List Problem → List Problem
  unfolding filtered_problems comes_before
  sorted_problems view progress problems =
      sort_by (comes_before view.sort_by_option) (filtered_problems view progress problems)

abbrev total_points : List Problem → ℕ
total_points problems = sum (map (λ problem. problem.points) problems)

abbrev pub solved_count : Map ChallengeProgress → List Problem → ℕ
solved_count progress problems =
    length (select (λ problem. is_solved (status_of progress problem)) problems)

abbrev pub earned_points : Map ChallengeProgress → ℕ
earned_points progress = sum (map (λ entry. entry.1.best_score) progress)

-- `Math.min(100, Math.round((earnedPoints / totalPoints) * 100))`
unfoldable pub earned_pct : Map ChallengeProgress → List Problem → ℕ
earned_pct progress problems =
    let total = total_points problems in
    if ltb 0 total then min 100 ((200 * earned_points progress + total) / (2 * total)) else 0
