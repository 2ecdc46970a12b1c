-- ===== src/TestCases/Bank/Queue.antt =====
-- The indexed loop over the queue, and the queue item by item.
use algo_test.Prelude.{
  ℕ, suc, ◌≡◌, refl, ap, sym, ◌∙◌, Option, List, [], ◌∷◌, ◌++◌, map, append_assoc, if◌then◌else◌,
  Bool-cases, inl, inr, Text, length, length-append, arith,
}
use algo_test.TestCases.Bank.{
  BatchQueueItem, Upload, BatchRun, TestCaseMetadata, update_at, report, mark_uploading,
  mark_progress, mark_outcome, upload_item, run_items, run_batch_upload_queue, is_skipped,
}

-- The last percentage that an upload reports.
abbrev pub progress_of : List ℕ → BatchQueueItem → BatchQueueItem
progress_of [] item = item
progress_of (percent ∷ percents) item = progress_of percents (mark_progress percent item)

-- What becomes of one item: it is left alone, or it ends as its own upload ends.
abbrev pub settled :
    (BatchQueueItem → Upload) → Option (List Text) → BatchQueueItem → BatchQueueItem
settled answer selected item =
    if is_skipped selected item
    then item
    else mark_outcome (answer item).outcome
        (progress_of (answer item).percents (mark_uploading item))

update_at-append :
    (done : List BatchQueueItem) (f : BatchQueueItem → BatchQueueItem) (item : BatchQueueItem)
    (rest : List BatchQueueItem)
    → update_at (length done) f (done ++ item ∷ rest) ≡ done ++ f item ∷ rest
unfolding update_at
update_at-append [] f item rest = refl
update_at-append (d ∷ done) f item rest = ap (λ q. d ∷ q) (update_at-append done f item rest)

report-append :
    (done : List BatchQueueItem) (percents : List ℕ) (item : BatchQueueItem)
    (rest : List BatchQueueItem)
    → report (length done) percents (done ++ item ∷ rest) ≡ done ++ progress_of percents item ∷ rest
unfolding report
report-append done [] item rest = refl
report-append done (percent ∷ percents) item rest =
    ap (report (length done) percents) (update_at-append done (mark_progress percent) item rest)
    ∙ report-append done percents (mark_progress percent item) rest

upload_item-queue :
    (i : ℕ) (done : List BatchQueueItem) (upload : Upload) (item : BatchQueueItem)
    (rest : List BatchQueueItem) (run : BatchRun)
    → i ≡ length done
    → run.queue ≡ done ++ item ∷ rest
    → (upload_item i upload run).queue
      ≡ done
        ++ mark_outcome upload.outcome (progress_of upload.percents (mark_uploading item)) ∷ rest
unfolding upload_item
upload_item-queue i done upload item rest run at same =
    rw
      (
        at,
        same,
        update_at-append done mark_uploading item rest,
        report-append done upload.percents (mark_uploading item) rest,
      )
      (update_at-append done (mark_outcome upload.outcome) _ rest)

run_items-queue :
    (answer : BatchQueueItem → Upload) (selected : Option (List Text)) (i : ℕ)
    (done items : List BatchQueueItem) (run : BatchRun)
    → i ≡ length done
    → run.queue ≡ done ++ items
    → (run_items answer selected i items run).queue ≡ done ++ map (settled answer selected) items
unfolding run_items
run_items-queue answer selected i done [] run at same = same
run_items-queue answer selected i done (item ∷ items) run at same =
    run_items-queue answer selected (suc i) (done ++ settled answer selected item ∷ []) items
      (if is_skipped selected item then run else upload_item i (answer item) run)
      (omega (arith, at, length-append {0} done (settled answer selected item ∷ [])))
      (elim (Bool-cases (is_skipped selected item)) [
        | inl skipped ↦ rw skipped (same ∙ sym (append_assoc done (item ∷ []) items))
        | inr taken ↦ rw taken (
            upload_item-queue i done (answer item) item items run at same
            ∙ sym (append_assoc done _ items))
      ])
    ∙ append_assoc done (settled answer selected item ∷ []) (map (settled answer selected) items)

-- The queue after a run is the queue before it, item by item: an item that was uploaded before, or
-- is not selected, is unchanged, and any other ends as its own upload ends.
pub run_batch_upload_queue-settled :
    (answer : BatchQueueItem → Upload) (latest : Option (List TestCaseMetadata))
    (selected : Option (List Text)) (run : BatchRun)
    → (run_batch_upload_queue answer latest selected run).queue
      ≡ map (settled answer selected) run.queue
unfolding run_batch_upload_queue
run_batch_upload_queue-settled answer latest selected run =
    run_items-queue answer selected 0 [] run.queue run refl refl
