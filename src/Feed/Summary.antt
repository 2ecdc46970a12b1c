-- ===== src/Feed/Summary.antt =====
-- competitor-frontend/src/lib/verdict-summary.ts: the breakdown of the verdicts of a failed
-- submission, and VERDICT_DETAILS of competitor-frontend/src/lib/constants.ts.
pub mod Counts
use algo_test.Prelude.{
  ℕ, suc, ◌+◌, Bool, true, false, not, String, Option, none, some, List, [], ◌∷◌, ◌++◌,
  if◌then◌else◌, get_or_else, str_eq, Text, codes, join, decimal, length, Map, get, put, select,
  map,
}
use algo_test.Feed.Types.{SubtaskResult}

abbrev pub verdict_of : SubtaskResult → String
verdict_of t = get_or_else t.verdict (if t.passed then "AC" else "WA")

-- The loop: how often each verdict occurs, in the order of its first occurrence.
unfoldable pub count_verdicts : Map ℕ → List SubtaskResult → Map ℕ
count_verdicts counts [] = counts
count_verdicts counts (t ∷ ts) =
    count_verdicts (put (verdict_of t) (get_or_else (get (verdict_of t) counts) 0 + 1) counts) ts

unfoldable pub count_passed : List SubtaskResult → ℕ
count_passed [] = 0
count_passed (t ∷ ts) = if t.passed then suc (count_passed ts) else count_passed ts

-- `.filter(([verdict]) => verdict !== "AC")`
unfoldable pub failures : Map ℕ → Map ℕ
failures counts = select (λ entry. not (str_eq entry.0 "AC")) counts

abbrev failure_part : String × ℕ → Text
failure_part (verdict, count) = decimal count ++ (codes " " ++ codes verdict)

-- The text, unless no failure is left.
unfoldable pub describe : ℕ → ℕ → Map ℕ → Option Text
describe passed total [] = none
describe passed total (part ∷ parts) = some (
    decimal passed
    ++ (codes "/"
        ++ (decimal total
            ++ (codes " passed — " ++ join (codes " · ") (map failure_part (part ∷ parts))))))

unfoldable pub summarize_subtasks : List SubtaskResult → Option Text
unfolding count_verdicts count_passed failures describe
summarize_subtasks [] = none
summarize_subtasks (t ∷ ts) =
    describe (count_passed (t ∷ ts)) (length (t ∷ ts)) (failures (count_verdicts [] (t ∷ ts)))

-- `VERDICT_DETAILS[verdict]?.label ?? verdict`
unfoldable pub verdict_label : String → String
verdict_label v =
    if str_eq v "AC"
    then "Accepted (AC)"
    else if str_eq v "WA"
    then "Wrong answer (WA)"
    else if str_eq v "TLE"
    then "Time limit exceeded (TLE)"
    else if str_eq v "RTE"
    then "Runtime error (RTE)"
    else if str_eq v "MLE"
    then "Memory limit exceeded (MLE)"
    else if str_eq v "OLE"
    then "Output limit exceeded (OLE)"
    else if str_eq v "CE"
    then "Compilation error (CE)"
    else if str_eq v "IE"
    then "Internal sandbox error (IE)"
    else if str_eq v "SK"
    then "Skipped (SK)"
    else v
