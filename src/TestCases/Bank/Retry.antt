-- ===== src/TestCases/Bank/Retry.antt =====
-- A retry while the queue is edited.
use algo_test.Prelude.{ℕ, ◌≡◌, refl, ◌∙◌, ap, List, [], ◌∷◌, ◌++◌, length, suc}
use algo_test.TestCases.Bank.{
  BatchQueueItem, Upload, TestCaseMetadata, mark_outcome, mark_uploading, start_retry, finish_retry,
  remove_batch_item, update_at, report, mark_progress,
}
use algo_test.TestCases.Bank.Queue.{progress_of}

remove_batch_item-append :
    (before : List BatchQueueItem) (removed : BatchQueueItem) (rest : List BatchQueueItem)
    → remove_batch_item (length before) (before ++ removed ∷ rest) ≡ before ++ rest
unfolding remove_batch_item
remove_batch_item-append [] removed rest = refl
remove_batch_item-append (b ∷ before) removed rest =
    ap (λ q. b ∷ q) (remove_batch_item-append before removed rest)

update_at-append_second :
    (before : List BatchQueueItem) (f : BatchQueueItem → BatchQueueItem)
    (first second : BatchQueueItem) (rest : List BatchQueueItem)
    → update_at (suc (length before)) f (before ++ first ∷ second ∷ rest)
      ≡ before ++ first ∷ f second ∷ rest
unfolding update_at
update_at-append_second [] f first second rest = refl
update_at-append_second (b ∷ before) f first second rest =
    ap (λ q. b ∷ q) (update_at-append_second before f first second rest)

report-append_second :
    (before : List BatchQueueItem) (percents : List ℕ) (first second : BatchQueueItem)
    (rest : List BatchQueueItem)
    → report (suc (length before)) percents (before ++ first ∷ second ∷ rest)
      ≡ before ++ first ∷ progress_of percents second ∷ rest
unfolding report
report-append_second before [] first second rest = refl
report-append_second before (percent ∷ percents) first second rest =
    ap (report (suc (length before)) percents)
      (update_at-append_second before (mark_progress percent) first second rest)
    ∙ report-append_second before percents first (mark_progress percent second) rest

-- If an item is removed while the upload of the item behind it is retried, then the outcome of the
-- upload is put down to the item that follows the two, and the item that is retried stays as it is
-- during an upload.
pub finish_retry_misplaced :
    (removed retried next : BatchQueueItem) (before rest : List BatchQueueItem) (upload : Upload)
    (seen tests : List TestCaseMetadata)
    → let index = suc (length before) in
      let started = start_retry index (before ++ removed ∷ retried ∷ next ∷ rest) in
      let edited = remove_batch_item (length before) started in
      (finish_retry index upload seen (record { queue = edited; tests = tests })).queue
      ≡ before
        ++ mark_uploading retried
          ∷ mark_outcome upload.outcome (progress_of upload.percents next)
          ∷ rest
unfolding start_retry finish_retry
finish_retry_misplaced removed retried next before rest upload seen tests =
    rw
      (
        update_at-append_second before mark_uploading removed retried (next ∷ rest),
        remove_batch_item-append before removed (mark_uploading retried ∷ next ∷ rest),
        report-append_second before upload.percents (mark_uploading retried) next rest,
      )
      (update_at-append_second before (mark_outcome upload.outcome) (mark_uploading retried) _ rest)
