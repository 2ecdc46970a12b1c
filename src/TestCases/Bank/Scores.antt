-- ===== src/TestCases/Bank/Scores.antt =====
-- The points that are saved, and the points of an even split.
use algo_test.Prelude.{
  ℕ, suc, ◌<◌, ◌==◌, ◌≡◌, ◌≢◌, inr, refl, ap, sym, ◌∙◌, true, false, Option, some, List, [], ◌∷◌,
  ◌++◌, map, length, All, All-append, arith, sum, get_or_else, append_assoc, ==_iff, append-nil,
  subst,
}
use algo_test.TestCases.Points.{generate_even_points, calculate_scoring_summary}
use algo_test.TestCases.Points.Even.{generate_even_points_fair}
use algo_test.TestCases.Points.Scoring.{has_custom_points_iff, points_sum-some}
use algo_test.TestCases.Bank.{
  TestCaseMetadata, PointsMap, PointsTab, get_points, put_points, merge_points, with_points,
  handle_save_points, with_even_points, handle_split_evenly,
}
use algo_test.TestCases.Bank.Sequence.{AreNumbered}

-- The points that a test has in the form: those that are not saved yet, or else its own.
abbrev pub chosen : PointsMap → TestCaseMetadata → ℕ
chosen pending t = get_or_else (get_points t.ordinal pending) t.points

abbrev entries : PointsMap → List TestCaseMetadata → PointsMap
entries pending tests = map (λ t. (t.ordinal, chosen pending t)) tests

abbrev AreBelow : ℕ → PointsMap → Type 0
AreBelow first m = All (λ e. e.0 < first) m

put_points-fresh : (k v : ℕ) (m : PointsMap) → AreBelow k m → put_points k v m ≡ m ++ (k, v) ∷ []
unfolding put_points
put_points-fresh k v [] below = refl
put_points-fresh k v ((j, w) ∷ m) (b, below) =
    let other : (j == k) ≡ false = ground (arith, b) in
    rw other (ap (λ r. (j, w) ∷ r) (put_points-fresh k v m below))

get_points-behind :
    (k v : ℕ) (m n : PointsMap) → AreBelow k m → get_points k (m ++ (k, v) ∷ n) ≡ some v
unfolding get_points
get_points-behind k v [] n below = rw ((==_iff k k).1 refl) refl
get_points-behind k v ((j, w) ∷ m) n (b, below) =
    let other : (j == k) ≡ false = ground (arith, b) in rw other (get_points-behind k v m n below)

AreBelow-suc : (first : ℕ) (m : PointsMap) → AreBelow first m → AreBelow (suc first) m
AreBelow-suc first [] below = tt
AreBelow-suc first (e ∷ m) (b, below) = (omega (arith, b), AreBelow-suc first m below)

module _ (pending : PointsMap) where
  below_next :
      (first : ℕ) (t : TestCaseMetadata) (m : PointsMap)
      → t.ordinal ≡ first
      → AreBelow first m
      → AreBelow (suc first) (m ++ (t.ordinal, chosen pending t) ∷ [])
  below_next first t m e below =
      All-append (λ x. x.0 < suc first) m ((t.ordinal, chosen pending t) ∷ [])
        (AreBelow-suc first m below) (omega (arith, e), tt)

  merge_points-numbered :
      (first : ℕ) (tests : List TestCaseMetadata) (m : PointsMap)
      → AreBelow first m
      → AreNumbered first tests
      → merge_points pending tests m ≡ m ++ entries pending tests
  unfolding merge_points
  merge_points-numbered first [] m below numbered = sym (append-nil m)
  merge_points-numbered first (t ∷ tests) m below (e, es) =
      rw (put_points-fresh t.ordinal (chosen pending t) m (subst (λ k. AreBelow k m) (sym e) below))
        (merge_points-numbered (suc first) tests (m ++ (t.ordinal, chosen pending t) ∷ [])
          (below_next first t m e below) es)
      ∙ append_assoc m ((t.ordinal, chosen pending t) ∷ []) (entries pending tests)

  points-merged :
      (first : ℕ) (tests : List TestCaseMetadata) (m merged : PointsMap)
      → AreBelow first m
      → AreNumbered first tests
      → merged ≡ m ++ entries pending tests
      → map (λ t. t.points) (map (with_points merged) tests) ≡ map (chosen pending) tests
  points-merged first [] m merged below numbered same = refl
  points-merged first (t ∷ tests) m merged below (e, es) same =
      let at : get_points t.ordinal merged ≡ some (chosen pending t) = rw same (
        get_points-behind t.ordinal (chosen pending t) m (entries pending tests)
          (subst (λ k. AreBelow k m) (sym e) below)) in
      rw at (
        ap (λ r. chosen pending t ∷ r)
          (points-merged (suc first) tests (m ++ (t.ordinal, chosen pending t) ∷ []) merged
            (below_next first t m e below) es
            (same
              ∙ sym (append_assoc m ((t.ordinal, chosen pending t) ∷ []) (entries pending tests)))))

  sum-entries :
      (tests : List TestCaseMetadata)
      → map (λ x. x.1) (entries pending tests) ≡ map (chosen pending) tests
  sum-entries [] = refl
  sum-entries (t ∷ tests) = ap (λ r. chosen pending t ∷ r) (sum-entries tests)

-- If the tests are numbered from 1 on, then saving points that the backend takes gives each test
-- the points it has in the form and leaves none unsaved, provided they add up to the score of the
-- problem; otherwise, or if the backend refuses them, it changes nothing.
pub handle_save_points-sum :
    (max_score : ℕ) (s : PointsTab)
    → AreNumbered 1 s.tests
    → (sum (map (chosen s.pending_points) s.tests) ≡ max_score
        → (map (λ t. t.points) (handle_save_points max_score true s).tests
            ≡ map (chosen s.pending_points) s.tests)
          × ((handle_save_points max_score true s).pending_points ≡ []))
      × (sum (map (chosen s.pending_points) s.tests) ≢ max_score
          → handle_save_points max_score true s ≡ s)
      × (handle_save_points max_score false s ≡ s)
unfolding handle_save_points
handle_save_points-sum max_score s numbered =
    let pending = s.pending_points in
    rw (merge_points-numbered pending 1 s.tests [] tt numbered, sum-entries pending s.tests)
      (
        λ matched.
            rw ((==_iff _ max_score).1 matched)
              (points-merged pending 1 s.tests [] _ tt numbered refl, refl),
        λ differs. ground (arith, differs),
        ground arith,
      )

points-with_even_points :
    (points : List ℕ) (tests : List TestCaseMetadata)
    → length points ≡ length tests
    → map (λ t. t.points) (with_even_points points tests) ≡ points
unfolding with_even_points
points-with_even_points [] [] same = refl
points-with_even_points [] (t ∷ tests) same = absurd (omega (arith, same))
points-with_even_points (p ∷ points) [] same = absurd (omega (arith, same))
points-with_even_points (p ∷ points) (t ∷ tests) same =
    ap (λ r. p ∷ r) (points-with_even_points points tests (omega (arith, same)))

length-some : (ns : List ℕ) → length (map {A = ℕ} {B = Option ℕ} (λ n. some n) ns) ≡ length ns
length-some [] = refl
length-some (n ∷ ns) = ap suc (length-some ns)

-- The points of the tests, as the summary reads them.
abbrev pub scores : List TestCaseMetadata → List (Option ℕ)
scores tests = map some (map (λ t. t.points) tests)

-- If there are tests, the score is positive and the backend takes the points, then after an even
-- split the points add up to the score, the summary does not call them custom, and nothing is left
-- unsaved.
pub handle_split_evenly-even :
    (max_score : ℕ) (s : PointsTab)
    → 0 < length s.tests
    → 0 < max_score
    → let after = handle_split_evenly max_score true s in
      let summary = calculate_scoring_summary (scores after.tests) max_score in
      (summary.custom_points_sum ≡ max_score)
      × (summary.has_custom_points ≡ false)
      × (after.pending_points ≡ [])
unfolding handle_split_evenly calculate_scoring_summary
handle_split_evenly-even max_score s present positive =
    let count = length s.tests in
    let some_tests : (count == 0) ≡ false = ground (arith, present) in
    let fair = generate_even_points_fair count max_score present positive in
    rw (some_tests, points-with_even_points (generate_even_points count max_score) s.tests fair.0)
      (
        points_sum-some (generate_even_points count max_score) ∙ fair.1,
        (has_custom_points_iff (map some (generate_even_points count max_score)) max_score
              positive).1
            (inr (
              inr (
                ap (λ n. map some (generate_even_points n max_score))
                  (sym (length-some _ ∙ fair.0))))),
        refl,
      )
