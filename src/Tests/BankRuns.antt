-- ===== src/Tests/BankRuns.antt =====
-- A queue of uploads, a list of tests and a drop of files.
use algo_test.Prelude.{
  ℕ, ◌≡◌, ◌+◌, refl, true, false, none, some, List, [], ◌∷◌, ◌++◌, arith, codes, map, Text, take,
  drop,
}
use algo_test.TestCases.Bank.{
  TestCaseMetadata, TestFile, QueueStatus, queued, success, BatchQueueItem, Upload, uploaded,
  upload_failed, BatchRun, run_batch_upload_queue, start_retry, finish_retry, remove_batch_item,
  mark_uploading, mark_outcome, confirm_delete_test, deleted, PointsTab, handle_split_evenly,
}
use algo_test.TestCases.Bank.Queue.{settled, progress_of, run_batch_upload_queue-settled}
use algo_test.TestCases.Bank.Retry.{finish_retry_misplaced}
use algo_test.TestCases.Bank.Sequence.{AreNumbered, contents, confirm_delete_test-numbered}
use algo_test.TestCases.Bank.Scores.{scores, handle_split_evenly-even}
use algo_test.TestCases.Points.{calculate_scoring_summary}
use algo_test.TestCases.Pairs.{match_test_file_pairs}
use algo_test.TestCases.Pairs.Names.{occurrences, names_of}
use algo_test.TestCases.Pairs.Accounted.{match_test_file_pairs-accounted}

abbrev file : Text → TestFile
file name = record { name = name; size = 10 }

abbrev item : Text → QueueStatus → BatchQueueItem
item name status = record {
  id = name;
  base_name = name;
  input_file = file name;
  expected_file = file name;
  total_size = 20;
  points = 0;
  status = status;
  progress = 0;
  message = none;
}

abbrev test : ℕ → Text → TestCaseMetadata
test ordinal sha = record {
  ordinal = ordinal;
  input_size = 10;
  expected_size = 10;
  input_sha = sha;
  expected_sha = sha;
  input_snippet = [];
  expected_snippet = [];
  points = 30;
}

abbrev tests : List TestCaseMetadata
tests = test 1 (codes "a") ∷ test 2 (codes "b") ∷ test 3 (codes "c") ∷ []

abbrev fails : Upload
fails = record { percents = 40 ∷ 80 ∷ []; outcome = upload_failed (codes "too large") }

abbrev passes : Upload
passes = record { percents = 50 ∷ 100 ∷ []; outcome = uploaded (test 4 (codes "d")) [] }

abbrev first_run : BatchRun
first_run = record {
  queue = item (codes "01") success ∷ item (codes "02") queued ∷ item (codes "03") queued ∷ [];
  tests = tests;
}

run_batch_upload_queue-settled_example :
    (run_batch_upload_queue (λ i. fails) none (some (codes "02" ∷ [])) first_run).queue
    ≡ map (settled (λ i. fails) (some (codes "02" ∷ []))) first_run.queue
run_batch_upload_queue-settled_example =
    run_batch_upload_queue-settled (λ i. fails) none (some (codes "02" ∷ [])) first_run

abbrev retried : BatchQueueItem
retried = item (codes "02") QueueStatus.error

abbrev next : BatchQueueItem
next = item (codes "03") queued

-- The queue after the removal of the first item, while the second is uploaded.
abbrev edited : List BatchQueueItem
edited = remove_batch_item 0 (start_retry 1 (item (codes "01") success ∷ retried ∷ next ∷ []))

finish_retry_misplaced_example :
    (finish_retry 1 passes [] (record { queue = edited; tests = [] })).queue
    ≡ mark_uploading retried ∷ mark_outcome passes.outcome (progress_of passes.percents next) ∷ []
finish_retry_misplaced_example =
    finish_retry_misplaced (item (codes "01") success) retried next [] [] passes [] []

confirm_delete_test-numbered_example :
    AreNumbered 1 (confirm_delete_test 2 (deleted none) tests)
    × (contents (confirm_delete_test 2 (deleted none) tests)
        ≡ take 1 (contents tests) ++ drop 2 (contents tests))
confirm_delete_test-numbered_example =
    confirm_delete_test-numbered 1 tests (omega arith) (refl, (refl, (refl, tt)))

-- Three tests and points that are not saved.
abbrev points_tab : PointsTab
points_tab = record { tests = tests; pending_points = (2, 70) ∷ [] }

handle_split_evenly-even_example :
    let after = handle_split_evenly 100 true points_tab in
    let summary = calculate_scoring_summary (scores after.tests) 100 in
    (summary.custom_points_sum ≡ 100)
    × (summary.has_custom_points ≡ false)
    × (after.pending_points ≡ [])
handle_split_evenly-even_example =
    handle_split_evenly-even 100 points_tab (omega arith) (omega arith)

abbrev files : List TestFile
files = file (codes "01.in") ∷ file (codes "01.out") ∷ []

match_test_file_pairs-accounted_example :
    occurrences (codes "01.out") (names_of (match_test_file_pairs (λ a b. true) files).0)
      + occurrences (codes "01.out") (match_test_file_pairs (λ a b. true) files).1
    ≡ occurrences (codes "01.out") (map (λ file. file.name) files)
match_test_file_pairs-accounted_example =
    match_test_file_pairs-accounted (λ a b. true) files (codes "01.out") (λ key. ground arith)
