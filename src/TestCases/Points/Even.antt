-- ===== src/TestCases/Points/Even.antt =====
-- An even distribution gives away the score, in shares that differ by one point at most.
use native.Mathlib.Nat.{mod-add-div, mod-lt}
use algo_test.Prelude.{
  ℕ, zero, suc, ◌+◌, ◌-◌, ◌*◌, ◌/◌, ◌%◌, ◌≤◌, ◌<◌, ◌≡◌, refl, min, ◌==◌, ◌||◌, false, sum, length,
  All, arith, ◌∙◌, ap,
}
use algo_test.TestCases.Points.{shares_from, generate_even_points}

module _ (base remainder : ℕ) where
  length-shares_from : (i count : ℕ) → length (shares_from base remainder i count) ≡ count
  unfolding shares_from
  length-shares_from i zero = refl
  length-shares_from i (suc count) = ap suc (length-shares_from (suc i) count)

  pub sum-shares_from :
      (i count : ℕ)
      → sum (shares_from base remainder i count) ≡ count * base + min count (remainder - i)
  unfolding shares_from
  sum-shares_from i zero = omega arith
  sum-shares_from i (suc count) = ground (arith, sum-shares_from (suc i) count)

  shares_from-bounds :
      (i count : ℕ) → All (λ p. (base ≤ p) × (p ≤ base + 1)) (shares_from base remainder i count)
  unfolding shares_from
  shares_from-bounds i zero = tt
  shares_from-bounds i (suc count) = (ground arith, shares_from-bounds (suc i) count)

-- For a positive number of tests and a positive score there is one share for each test, the shares
-- add up to the score, and each is the score divided by the number of tests, rounded down, or one
-- point more.
pub generate_even_points_fair :
    (count max_score : ℕ)
    → 0 < count
    → 0 < max_score
    → (length (generate_even_points count max_score) ≡ count)
      × (sum (generate_even_points count max_score) ≡ max_score)
      × All
          (λ p. (max_score / count ≤ p) × (p ≤ max_score / count + 1))
          (generate_even_points count max_score)
unfolding generate_even_points
generate_even_points_fair count max_score c m =
    let positive : (count == 0 || max_score == 0) ≡ false = ground arith in
    rw positive (
      length-shares_from _ _ 0 count,
      sum-shares_from (max_score / count) (max_score % count) 0 count
          ∙ omega (arith, mod-add-div max_score count, mod-lt max_score c),
      shares_from-bounds _ _ 0 count,
    )
