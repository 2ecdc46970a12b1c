-- ===== src/Tests/HistoryRuns.antt =====
-- Snapshots with a submission.
use algo_test.Prelude.{
  ◌≤◌, true, false, some, none, List, [], ◌∷◌, arith, codes, text_eq, if◌then◌else◌,
}
use algo_test.History.{Snapshot, submitted}
use algo_test.History.Kept.{IsKept, count_of}

abbrev pub snapshots : List Snapshot
snapshots =
    record {
      id = codes "a";
      at = 10;
      trigger = submitted;
      language = codes "cpp";
      code = codes "int main() {}";
      verdict = none;
      score = none;
      max_score = none;
      submission_id = some (codes "s1");
    }
    ∷ []

pub snapshots-IsKept : IsKept snapshots
unfolding count_of
snapshots-IsKept = (
  omega arith,
  λ id filled. elim (text_eq (codes "s1") id) as (λ b. (if b then 1 else 0) ≤ 1) [
    | true ↦ omega arith
    | false ↦ omega arith
  ],
)
