-- ===== src/TestCases/Bank.antt =====
-- The test cases of a problem, admin-frontend/src/components/problem-editor/test-cases-tab.tsx: the
-- list of tests, the points, and the queue of uploads. What the backend answers to an upload, to a
-- deletion or to a request for the tests is an argument of the handler. The problem is saved already,
-- so that it has an id, and no second run of uploads starts during one.
pub mod Queue
pub mod Retry
pub mod Sequence
pub mod Scores
use algo_test.Prelude.{
  ℕ, suc, zero, ◌+◌, ◌-◌, ◌==◌, Bool, true, false, ◌&&◌, ◌||◌, not, Option, none, some, List, [],
  ◌∷◌, ◌++◌, map, if◌then◌else◌, Text, codes, has_text, length, ltb, select, get_elem?, get_or_else,
  sum,
}
use algo_test.TestCases.Points.{generate_even_points}

-- admin-frontend/src/types/problem.ts
pub record TestCaseMetadata : Type 0 where
  pub ordinal : ℕ
  pub input_size : ℕ
  pub expected_size : ℕ
  pub input_sha : Text
  pub expected_sha : Text
  pub input_snippet : Text
  pub expected_snippet : Text
  pub points : ℕ

-- A `File` of the browser: what the code reads of it.
pub record TestFile : Type 0 where
  pub name : Text
  pub size : ℕ

pub data QueueStatus : Type 0 where
  queued uploading success error : QueueStatus

-- admin-frontend/src/components/problem-editor/test-cases/types.ts
pub record BatchQueueItem : Type 0 where
  pub id : Text
  pub base_name : Text
  pub input_file : TestFile
  pub expected_file : TestFile
  pub total_size : ℕ
  pub points : ℕ
  pub status : QueueStatus
  pub progress : ℕ
  pub message : Option Text

-- How an upload ends: with the created test and the list of all tests, empty where the backend
-- sends none, or with an error.
pub data UploadOutcome : Type 0 where
  uploaded : TestCaseMetadata → List TestCaseMetadata → UploadOutcome
  upload_failed : Text → UploadOutcome

-- An upload reports its progress and ends.
pub record Upload : Type 0 where
  pub percents : List ℕ
  pub outcome : UploadOutcome

-- `prev.map((q, idx) => (idx === i ? f(q) : q))`
unfoldable pub update_at :
    ℕ → (BatchQueueItem → BatchQueueItem) → List BatchQueueItem → List BatchQueueItem
update_at i f [] = []
update_at zero f (item ∷ queue) = f item ∷ queue
update_at (suc i) f (item ∷ queue) = item ∷ update_at i f queue

-- `prev.filter((_, idx) => idx !== index)`, `handleRemoveBatchItem`
unfoldable pub remove_batch_item : ℕ → List BatchQueueItem → List BatchQueueItem
remove_batch_item i [] = []
remove_batch_item zero (item ∷ queue) = queue
remove_batch_item (suc i) (item ∷ queue) = item ∷ remove_batch_item i queue

abbrev pub mark_uploading : BatchQueueItem → BatchQueueItem
mark_uploading item = record item { status = uploading; progress = 0; message = none }

abbrev pub mark_progress : ℕ → BatchQueueItem → BatchQueueItem
mark_progress percent item = record item { progress = percent }

abbrev pub mark_outcome : UploadOutcome → BatchQueueItem → BatchQueueItem
mark_outcome (uploaded created all_tests) item = record item { status = success; progress = 100 }
mark_outcome (upload_failed message) item = record item { status = error; message = some message }

-- The calls of `onProgress`.
unfoldable pub report : ℕ → List ℕ → List BatchQueueItem → List BatchQueueItem
unfolding update_at
report i [] queue = queue
report i (percent ∷ percents) queue = report i percents (update_at i (mark_progress percent) queue)

-- The tests that are shown after an upload.
abbrev pub tests_after : UploadOutcome → List TestCaseMetadata → List TestCaseMetadata
tests_after (uploaded created all_tests) tests =
    if ltb 0 (length all_tests) then all_tests else tests ++ created ∷ []
tests_after (upload_failed message) tests = tests

-- What the loop of `runBatchUploadQueue` changes.
pub record BatchRun : Type 0 where
  pub queue : List BatchQueueItem
  pub tests : List TestCaseMetadata

-- The body of the loop for the item at `i`, once it is not skipped.
unfoldable pub upload_item : ℕ → Upload → BatchRun → BatchRun
unfolding report
upload_item i upload run = record {
  queue =
      update_at i (mark_outcome upload.outcome)
        (report i upload.percents (update_at i mark_uploading run.queue));
  tests = tests_after upload.outcome run.tests;
}

abbrev pub is_success : QueueStatus → Bool
is_success success = true
is_success _ = false

-- `selectedIds && !selectedIds.has(item.id)`
abbrev pub is_left_out : Option (List Text) → Text → Bool
is_left_out none id = false
is_left_out (some ids) id = not (has_text id ids)

abbrev pub is_skipped : Option (List Text) → BatchQueueItem → Bool
is_skipped selected item = is_success item.status || is_left_out selected item.id

-- The loop over the items that the queue had when the run began, from the index `i` on.
unfoldable pub run_items :
    (BatchQueueItem → Upload) → Option (List Text) → ℕ → List BatchQueueItem → BatchRun → BatchRun
unfolding upload_item
run_items answer selected i [] run = run
run_items answer selected i (item ∷ items) run =
    run_items answer selected (suc i) items
      (if is_skipped selected item then run else upload_item i (answer item) run)

-- `getProblemTestsAction` at the end: a list that is empty, or cannot be had, changes nothing.
abbrev pub refreshed :
    Option (List TestCaseMetadata) → List TestCaseMetadata → List TestCaseMetadata
refreshed none tests = tests
refreshed (some latest) tests = if ltb 0 (length latest) then latest else tests

unfoldable pub run_batch_upload_queue :
    (BatchQueueItem → Upload)
    → Option (List TestCaseMetadata)
    → Option (List Text)
    → BatchRun
    → BatchRun
unfolding run_items
run_batch_upload_queue answer latest selected run =
    let after = run_items answer selected 0 run.queue run in
    record after { tests = refreshed latest after.tests }

-- `handleRetryBatchItem` up to the upload.
unfoldable pub start_retry : ℕ → List BatchQueueItem → List BatchQueueItem
unfolding update_at
start_retry index queue = update_at index mark_uploading queue

-- The tests after the retry: it adds to those that it saw when it began.
abbrev pub tests_after_retry :
    UploadOutcome → List TestCaseMetadata → List TestCaseMetadata → List TestCaseMetadata
tests_after_retry (uploaded created all_tests) seen tests =
    tests_after (uploaded created all_tests) seen
tests_after_retry (upload_failed message) seen tests = tests

-- The rest of `handleRetryBatchItem`, with the tests that it saw; the queue may have been edited in
-- the meantime.
unfoldable pub finish_retry : ℕ → Upload → List TestCaseMetadata → BatchRun → BatchRun
unfolding report
finish_retry index upload seen run = record {
  queue = update_at index (mark_outcome upload.outcome) (report index upload.percents run.queue);
  tests = tests_after_retry upload.outcome seen run.tests;
}

-- How the backend answers a deletion: it fails, or succeeds, and then it sends the tests or not.
pub data Deletion : Type 0 where
  delete_failed : Text → Deletion
  deleted : Option (List TestCaseMetadata) → Deletion

-- The tests without one ordinal, those behind it moved up.
unfoldable pub resequence : ℕ → List TestCaseMetadata → List TestCaseMetadata
resequence ordinal tests =
    map (λ t. if ltb ordinal t.ordinal then record t { ordinal = t.ordinal - 1 } else t)
      (select (λ t. not (t.ordinal == ordinal)) tests)

unfoldable pub confirm_delete_test : ℕ → Deletion → List TestCaseMetadata → List TestCaseMetadata
unfolding resequence
confirm_delete_test ordinal (delete_failed message) tests = tests
confirm_delete_test ordinal (deleted none) tests = resequence ordinal tests
confirm_delete_test ordinal (deleted (some latest)) tests = latest

-- `handleSingleSuccess`
unfoldable pub single_success :
    TestCaseMetadata → List TestCaseMetadata → Bool → List TestCaseMetadata → List TestCaseMetadata
single_success saved all_tests is_edit tests =
    if ltb 0 (length all_tests)
    then all_tests
    else if is_edit
    then map (λ t. if t.ordinal == saved.ordinal then saved else t) tests
    else tests ++ saved ∷ []

-- An object with numbers as keys.
abbrev pub PointsMap : Type 0
PointsMap = List (ℕ × ℕ)

unfoldable pub get_points : ℕ → PointsMap → Option ℕ
get_points k [] = none
get_points k ((j, v) ∷ m) = if j == k then some v else get_points k m

unfoldable pub put_points : ℕ → ℕ → PointsMap → PointsMap
put_points k v [] = (k, v) ∷ []
put_points k v ((j, w) ∷ m) = if j == k then (j, v) ∷ m else (j, w) ∷ put_points k v m

-- `mergedPoints`
unfoldable pub merge_points : PointsMap → List TestCaseMetadata → PointsMap → PointsMap
unfolding get_points put_points
merge_points pending [] merged = merged
merge_points pending (t ∷ tests) merged =
    merge_points pending tests
      (put_points t.ordinal (get_or_else (get_points t.ordinal pending) t.points) merged)

-- The tests and the points that are not saved yet.
pub record PointsTab : Type 0 where
  pub tests : List TestCaseMetadata
  pub pending_points : PointsMap

unfoldable pub handle_point_change : ℕ → ℕ → PointsTab → PointsTab
unfolding put_points
handle_point_change ordinal points s = record s {
  pending_points = put_points ordinal points s.pending_points;
}

abbrev pub with_points : PointsMap → TestCaseMetadata → TestCaseMetadata
with_points merged t = record t { points = get_or_else (get_points t.ordinal merged) t.points }

-- `handleSavePoints`, where `accepted` says whether the backend takes the points.
unfoldable pub handle_save_points : ℕ → Bool → PointsTab → PointsTab
unfolding merge_points
handle_save_points max_score accepted s =
    let merged = merge_points s.pending_points s.tests [] in
    if not (sum (map (λ e. e.1) merged) == max_score)
    then s
    else if accepted
    then record { tests = map (with_points merged) s.tests; pending_points = [] }
    else s

-- `tests.map((t, i) => ({ ...t, points: evenPoints[i] ?? 0 }))`
unfoldable pub with_even_points : List ℕ → List TestCaseMetadata → List TestCaseMetadata
with_even_points points [] = []
with_even_points [] (t ∷ tests) = record t { points = 0 } ∷ with_even_points [] tests
with_even_points (p ∷ points) (t ∷ tests) = record t { points = p } ∷ with_even_points points tests

unfoldable pub handle_split_evenly : ℕ → Bool → PointsTab → PointsTab
unfolding with_even_points
handle_split_evenly max_score accepted s =
    if length s.tests == 0
    then s
    else if accepted
    then record {
      tests = with_even_points (generate_even_points (length s.tests) max_score) s.tests;
      pending_points = [];
    }
    else s
