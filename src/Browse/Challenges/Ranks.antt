-- ===== src/Browse/Challenges/Ranks.antt =====
-- The challenges in the order of their difficulty.
use algo_test.Prelude.{◌≡◌, refl, ◌⊎◌, inl, inr, Bool, false, List, Text, Map}
use algo_test.Browse.Sorted.{sort_by-eq, IsSorted-never}
use algo_test.Browse.Challenges.{
  Difficulty, easy, medium, hard, difficulty_text, difficulty_rank, Problem, ChallengeProgress,
  ChallengeView, difficulty_asc, difficulty_desc, comes_before, filtered_problems, sorted_problems,
}

-- No difficulty of a problem has a rank of its own.
rank-same : (d : Difficulty) → difficulty_rank (difficulty_text d) ≡ 99
unfolding difficulty_rank
rank-same easy = refl
rank-same medium = refl
rank-same hard = refl

module _ (locale_before : Text → Text → Bool) where
  comes_before-asc : (a b : Problem) → comes_before locale_before difficulty_asc a b ≡ false
  unfolding comes_before
  comes_before-asc a b = rw (rank-same a.difficulty, rank-same b.difficulty) refl

  comes_before-desc : (a b : Problem) → comes_before locale_before difficulty_desc a b ≡ false
  unfolding comes_before
  comes_before-desc a b = rw (rank-same a.difficulty, rank-same b.difficulty) refl

  -- When the challenges are sorted by difficulty, in either direction, they stand as they are without
  -- any sorting.
  pub sorted_problems-by_difficulty :
      (view : ChallengeView) (progress : Map ChallengeProgress) (problems : List Problem)
      → (view.sort_by_option ≡ difficulty_asc) ⊎ (view.sort_by_option ≡ difficulty_desc)
      → sorted_problems locale_before view progress problems
        ≡ filtered_problems view progress problems
  unfolding sorted_problems
  sorted_problems-by_difficulty view progress problems (inl asc) = rw asc (
      sort_by-eq (comes_before locale_before difficulty_asc) _
        (IsSorted-never _ comes_before-asc (filtered_problems view progress problems)))
  sorted_problems-by_difficulty view progress problems (inr desc) = rw desc (
      sort_by-eq (comes_before locale_before difficulty_desc) _
        (IsSorted-never _ comes_before-desc (filtered_problems view progress problems)))
