-- ===== src/History/Merge.antt =====
-- `mergeServerSubmissions` of competitor-frontend/src/hooks/use-history.ts, and the effect that calls
-- it: the submissions that the server lists are merged into the snapshots. The time of day is an
-- argument.
pub mod Ordered
use algo_test.Prelude.{
  ℕ, ◌==◌, ltb, Bool, true, false, ◌||◌, not, Option, none, some, List, [], ◌∷◌, ◌++◌,
  if◌then◌else◌, Text, codes, text_eq, is_blank, find, take, get_or_else,
}
use algo_test.Feed.Types.{SubmissionItem}
use algo_test.History.{
  Snapshot, submitted, is_of, normalize_language_id, update_first, max_history_snapshots,
}

-- `a !== b` for optional texts and numbers.
abbrev differs : (Option Text) → Option Text → Bool
differs none none = false
differs (some a) (some b) = not (text_eq a b)
differs _ _ = true

abbrev number_differs : (Option ℕ) → Option ℕ → Bool
number_differs none none = false
number_differs (some a) (some b) = not (a == b)
number_differs _ _ = true

-- `sub.code || existing.code`
abbrev code_or : Option Text → Text → Text
code_or none code = code
code_or (some own) code = if is_blank own then code else own

abbrev code_text : SubmissionItem → Option Text
code_text sub = elim sub.code [ none ↦ none | some code ↦ some (codes code) ]

-- The snapshot with what the server says of its submission.
abbrev pub with_submission : SubmissionItem → Snapshot → Snapshot
with_submission sub s = record s {
  language = normalize_language_id (codes sub.language);
  code = code_or (code_text sub) s.code;
  verdict = some (codes sub.status);
  score = some sub.score;
  max_score = some sub.max_score;
}

abbrev pub is_changed : Snapshot → Snapshot → Bool
is_changed updated existing =
    not (text_eq updated.language existing.language)
    || not (text_eq updated.code existing.code)
    || differs updated.verdict existing.verdict
    || number_differs updated.score existing.score
    || number_differs updated.max_score existing.max_score

-- The snapshot of a submission that has none yet.
abbrev pub server_snapshot : ℕ → SubmissionItem → Snapshot
server_snapshot now sub = record {
  id = codes "server-" ++ codes sub.submission_id;
  at = if sub.timestamp == 0 then now else sub.timestamp;
  trigger = submitted;
  language = normalize_language_id (codes sub.language);
  code = get_or_else (code_text sub) [];
  verdict = some (codes sub.status);
  score = some sub.score;
  max_score = some sub.max_score;
  submission_id = some (codes sub.submission_id);
}

abbrev pub is_empty : List SubmissionItem → Bool
is_empty [] = true
is_empty (sub ∷ subs) = false

-- The merged list, and whether it has changes.
abbrev pub merge_found :
    ℕ → SubmissionItem → Option Snapshot → List Snapshot → Bool → List Snapshot × Bool
merge_found now sub none merged has_changes = (merged ++ server_snapshot now sub ∷ [], true)
merge_found now sub (some existing) merged has_changes =
    if is_changed (with_submission sub existing) existing
    then (
      get_or_else (update_first (with_submission sub) (codes sub.submission_id) merged) merged,
      true,
    )
    else (merged, has_changes)

-- One turn of the loop over the submissions.
unfoldable pub merge_one : ℕ → SubmissionItem → List Snapshot → Bool → List Snapshot × Bool
merge_one now sub merged has_changes =
    if is_blank (codes sub.submission_id)
    then (merged, has_changes)
    else merge_found now sub (find (is_of (codes sub.submission_id)) merged) merged has_changes

unfoldable pub merge_all : ℕ → List SubmissionItem → List Snapshot → Bool → List Snapshot × Bool
unfolding merge_one
merge_all now [] merged has_changes = (merged, has_changes)
merge_all now (sub ∷ subs) merged has_changes =
    let (next, changes) = merge_one now sub merged has_changes in merge_all now subs next changes

-- The stable `sort` by time, the latest first.
abbrev pub insert : Snapshot → List Snapshot → List Snapshot
insert s [] = s ∷ []
insert s (other ∷ rest) =
    let later = insert s rest in if ltb s.at other.at then other ∷ later else s ∷ other ∷ rest

unfoldable pub sort : List Snapshot → List Snapshot
sort [] = []
sort (s ∷ rest) = insert s (sort rest)

unfoldable pub merge_server_submissions : ℕ → List Snapshot → List SubmissionItem → List Snapshot
unfolding merge_all sort
merge_server_submissions now local_snapshots subs =
    let (merged, has_changes) = merge_all now subs local_snapshots false in
    if has_changes then take max_history_snapshots (sort merged) else local_snapshots

-- The effect that syncs, from the end of the server action on.
unfoldable pub sync_submissions : ℕ → Bool → List SubmissionItem → List Snapshot → List Snapshot
sync_submissions now is_cancelled subs current =
    if is_cancelled || is_empty subs then current else merge_server_submissions now current subs
