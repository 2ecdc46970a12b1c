-- ===== src/Feed/Summary/Counts.antt =====
-- What the breakdown counts, and when there is none.
use algo_test.Prelude.{
  ℕ, ◌+◌, ◌≡◌, ◌↔◌, refl, String, none, List, [], ◌∷◌, if◌then◌else◌, get_or_else, str_eq,
  str_eq_iff, Map, get, put, get-put, All, arith, suc,
}
use algo_test.Feed.Types.{SubtaskResult}
use algo_test.Feed.Summary.{verdict_of, count_verdicts, failures, describe, summarize_subtasks}

-- The number of subtasks with the verdict.
unfoldable pub occurrences : String → List SubtaskResult → ℕ
occurrences v [] = 0
occurrences v (t ∷ ts) =
    if str_eq (verdict_of t) v then suc (occurrences v ts) else occurrences v ts

-- The count that the map holds for a verdict is its number of occurrences, added to what was there.
pub get-count_verdicts :
    (v : String) (counts : Map ℕ) (ts : List SubtaskResult)
    → get_or_else (get v (count_verdicts counts ts)) 0
      ≡ get_or_else (get v counts) 0 + occurrences v ts
unfolding count_verdicts occurrences
get-count_verdicts v counts [] = ground arith
get-count_verdicts v counts (t ∷ ts) =
    let more = get_or_else (get (verdict_of t) counts) 0 + 1 in
    rw
      (
        get-count_verdicts v (put (verdict_of t) more counts) ts,
        get-put (verdict_of t) v more counts,
      )
      (ground (arith, str_eq_iff (verdict_of t) v))

abbrev AllAccepted : Map ℕ → Type 0
AllAccepted = All (λ entry. entry.0 ≡ "AC")

put-AllAccepted_iff :
    (k : String) (n : ℕ) (counts : Map ℕ)
    → AllAccepted (put k n counts) ↔ ((k ≡ "AC") × AllAccepted counts)
unfolding put
put-AllAccepted_iff k n [] = (λ h. h, λ h. h)
put-AllAccepted_iff k n ((j, m) ∷ counts) =
    ground (arith, str_eq_iff j k, put-AllAccepted_iff k n counts)

count_verdicts-AllAccepted_iff :
    (counts : Map ℕ) (ts : List SubtaskResult)
    → AllAccepted (count_verdicts counts ts)
      ↔ (AllAccepted counts × All (λ t. verdict_of t ≡ "AC") ts)
unfolding count_verdicts
count_verdicts-AllAccepted_iff counts [] = (λ h. (h, tt), λ h. h.0)
count_verdicts-AllAccepted_iff counts (t ∷ ts) =
    let more = get_or_else (get (verdict_of t) counts) 0 + 1 in
    let (to, from) = count_verdicts-AllAccepted_iff (put (verdict_of t) more counts) ts in
    let (split, glue) = put-AllAccepted_iff (verdict_of t) more counts in
    (
      λ h. ((split (to h).0).1, ((split (to h).0).0, (to h).1)),
      λ h. from (glue (h.1.0, h.0), h.1.1),
    )

failures-eq-nil_iff : (counts : Map ℕ) → (failures counts ≡ []) ↔ AllAccepted counts
unfolding failures
failures-eq-nil_iff [] = ground arith
failures-eq-nil_iff ((v, n) ∷ counts) =
    ground (arith, str_eq_iff v "AC", failures-eq-nil_iff counts)

describe-eq-none_iff :
    (passed total : ℕ) (failed : Map ℕ) → (describe passed total failed ≡ none) ↔ (failed ≡ [])
unfolding describe
describe-eq-none_iff passed total [] = (λ h. refl, λ h. refl)
describe-eq-none_iff passed total (part ∷ parts) = (λ h. cc, λ h. cc)

-- There is no breakdown exactly when the verdict of each subtask is `AC`: the one that it carries,
-- or, where it carries none, that of a passed test.
pub summarize_subtasks-eq-none_iff :
    (ts : List SubtaskResult) → (summarize_subtasks ts ≡ none) ↔ All (λ t. verdict_of t ≡ "AC") ts
unfolding summarize_subtasks
summarize_subtasks-eq-none_iff [] = (λ h. tt, λ h. refl)
summarize_subtasks-eq-none_iff (t ∷ ts) =
    let counts = count_verdicts [] (t ∷ ts) in
    let (to, from) = count_verdicts-AllAccepted_iff [] (t ∷ ts) in
    let (only, empty) = failures-eq-nil_iff counts in
    let (nothing, silent) = describe-eq-none_iff _ _ (failures counts) in
    (λ h. (to (only (nothing h))).1, λ h. silent (empty (from (tt, h))))
