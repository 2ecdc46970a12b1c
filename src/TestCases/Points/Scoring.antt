-- ===== src/TestCases/Points/Scoring.antt =====
-- When the summary calls the points of the tests custom.
use algo_test.Prelude.{
  ℕ, suc, ◌/◌, ◌%◌, ◌<◌, ◌≡◌, ◌↔◌, ◌⊎◌, inl, inr, refl, ◌∙◌, ap, Bool, true, false, ◌&&◌, ◌||◌, not,
  ◌==◌, ==_iff, Option, some, none, List, [], ◌∷◌, map, sum, length, all, All, arith,
}
use algo_test.TestCases.Points.{
  share, shares_from, generate_even_points, is_points, every_share, points_sum,
  calculate_scoring_summary,
}
use algo_test.TestCases.Points.Even.{generate_even_points_fair}

is_points_iff : (n : ℕ) (p : Option ℕ) → (is_points n p ≡ true) ↔ (p ≡ some n)
is_points_iff n none = ground arith
is_points_iff n (some m) = ground arith

every_share_iff :
    (base remainder i : ℕ) (ps : List (Option ℕ))
    → (every_share base remainder i ps ≡ true)
      ↔ (ps ≡ map some (shares_from base remainder i (length ps)))
unfolding every_share shares_from
every_share_iff base remainder i [] = ground arith
every_share_iff base remainder i (p ∷ ps) =
    ground
      (arith, is_points_iff (share base remainder i) p, every_share_iff base remainder (suc i) ps)

pub points_sum-some : (ns : List ℕ) → points_sum (map some ns) ≡ sum ns
unfolding points_sum
points_sum-some [] = refl
points_sum-some (n ∷ ns) = omega (arith, points_sum-some ns)

all-is_points_iff :
    (n : ℕ) (ps : List (Option ℕ)) → (all (is_points n) ps ≡ true) ↔ All (λ p. p ≡ some n) ps
all-is_points_iff n [] = ground arith
all-is_points_iff n (p ∷ ps) = ground (arith, is_points_iff n p, all-is_points_iff n ps)

-- The tests of `is_even_distribution` in terms of what they decide.
test_iff :
    (a s e : Bool) {P Q : Type 0}
    → (a ≡ true) ↔ P
    → (e ≡ true) ↔ Q
    → (Q → s ≡ true)
    → (not (a || (s && e)) ≡ false) ↔ (P ⊎ Q)
test_iff true s e p q k = (λ h. inl (p.0 refl), λ h. refl)
test_iff false true true p q k = (λ h. inr (q.0 refl), λ h. refl)
test_iff false true false p q k = (λ h. cc, λ h. elim h [ inl x ↦ cc (p.1 x) | inr x ↦ cc (q.1 x) ])
test_iff false false e p q k = (λ h. cc, λ h. elim h [ inl x ↦ cc (p.1 x) | inr x ↦ cc (k x) ])

abbrev Filled : List (Option ℕ) → Type 0
Filled [] = ⊥
Filled (p ∷ ps) = Unit

module _ (ps : List (Option ℕ)) (max_score : ℕ) (positive : 0 < max_score)
    (filled : Filled ps) where
  has_tests : 0 < length ps
  has_tests =
      elim ps as (λ l. Filled l → 0 < length l) [ [] ↦ λ h. absurd h | x ∷ xs ↦ λ h. omega arith ]
        filled

  even_iff :
      (every_share (max_score / length ps) (max_score % length ps) 0 ps ≡ true)
      ↔ (ps ≡ map some (generate_even_points (length ps) max_score))
  unfolding generate_even_points
  even_iff =
      let count = has_tests in
      let positives : (length ps == 0 || max_score == 0) ≡ false = ground arith in
      rw positives (every_share_iff (max_score / length ps) (max_score % length ps) 0 ps)

  points_sum-even :
      ps ≡ map some (generate_even_points (length ps) max_score)
      → (points_sum ps == max_score) ≡ true
  points_sum-even even =
      let total = (generate_even_points_fair (length ps) max_score has_tests positive).1 in
      (==_iff (points_sum ps) max_score).1 (ap points_sum even ∙ points_sum-some _ ∙ total)

-- For a positive score the summary says that the points are not custom exactly when there is no
-- test, or each test has 0 points, or the tests have the points of the even distribution.
pub has_custom_points_iff :
    (tests : List (Option ℕ)) (max_score : ℕ)
    → 0 < max_score
    → ((calculate_scoring_summary tests max_score).has_custom_points ≡ false) ↔ (
        (tests ≡ [])
        ⊎ All (λ p. p ≡ some 0) tests
        ⊎ (tests ≡ map some (generate_even_points (length tests) max_score)))
unfolding calculate_scoring_summary
has_custom_points_iff [] max_score positive = (λ h. inl refl, λ h. refl)
has_custom_points_iff (p ∷ ps) max_score positive =
    let (to, from) =
      test_iff _ _ _ (all-is_points_iff 0 (p ∷ ps)) (even_iff (p ∷ ps) max_score positive tt)
        (points_sum-even (p ∷ ps) max_score positive tt) in
    (λ h. inr (to h), λ h. from (elim h [ inl e ↦ absurd (cc e) | inr k ↦ k ]))
