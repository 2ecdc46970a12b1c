-- ===== src/Tests/FeedRuns.antt =====
-- Updates of one submission, in and out of order.
use algo_test.Prelude.{
  ◌≡◌, refl, true, false, none, some, [], ◌∷◌, arith, inl, inr, get, ◌<◌, ℕ, ◌↔◌, ◌⊎◌, ◌++◌,
}
use algo_test.Feed.Types.{running, queued, SubmissionStatusResponse}
use algo_test.Feed.Progress.{terminal, should_apply_submission_progress}
use algo_test.Feed.Progress.Order.{IsDated, ends_before, moves_on, should_apply_dated_iff}
use algo_test.Feed.Progress.Delivery.{IsSettled, deliver, deliver_converges}
use algo_test.Feed.Session.{stream_event, list_loaded, toast_cleared, opened, run}
use algo_test.Feed.Session.Consistent.{run-IsConsistent}
use algo_test.Feed.Session.Stale.{apply_all, restore_active_stale}
use algo_test.Feed.Provider.Consistent.{IsConsistent}
use algo_test.Feed.Actions.{restore_active, restored_entry, live_status}
use algo_test.Tests.Data.{date_of, second_test, finished, rejudged, listed, shown_finished}

second_test-IsDated : IsDated date_of 100 second_test
second_test-IsDated = record { started = refl; parsed = refl }

finished-IsDated : IsDated date_of 100 finished
finished-IsDated = record { started = refl; parsed = refl }

rejudged-IsDated : IsDated date_of 160 rejudged
rejudged-IsDated = record { started = refl; parsed = refl }

abbrev in_queue : SubmissionStatusResponse
in_queue = record second_test { status = queued; attempt_started_at = none; finished_at = none }

deliver_converges_example :
    IsSettled date_of 100 (deliver date_of none (in_queue ∷ finished ∷ second_test ∷ []))
deliver_converges_example =
    deliver_converges date_of 100 (in_queue ∷ finished ∷ second_test ∷ [])
      (
        inl (record { undated = refl; ends = inl refl }),
        (
          inr (100, finished-IsDated, omega arith),
          (inr (100, second_test-IsDated, omega arith), tt),
        ),
      )
      (inr (inl ((finished-IsDated, refl), refl)))

run-IsConsistent_example :
    IsConsistent
      (run date_of opened (list_loaded (listed ∷ []) ∷ stream_event finished ∷ toast_cleared ∷ []))
run-IsConsistent_example =
    run-IsConsistent date_of
      (list_loaded (listed ∷ []) ∷ stream_event finished ∷ toast_cleared ∷ [])
      ((unfold get in refl, tt), (tt, (tt, tt)))

shown_finished-get : get "s1" shown_finished.latest ≡ some finished
unfolding get
shown_finished-get = refl

none_active : get "s1" shown_finished.active_submissions ≡ none
unfolding get
none_active = refl

listed-live : live_status listed.status ≡ some running
unfolding live_status
listed-live = refl

restore_active_stale_example :
    (get "s1" (restore_active ([] ++ listed ∷ []) shown_finished).active_submissions
      ≡ some (restored_entry listed running))
    × (apply_all date_of
          (second_test ∷ second_test ∷ [])
          (restore_active ([] ++ listed ∷ []) shown_finished)
        ≡ restore_active (listed ∷ []) shown_finished)
restore_active_stale_example =
    restore_active_stale date_of shown_finished [] [] listed finished
      (second_test ∷ second_test ∷ []) running shown_finished-get refl none_active listed-live refl
      tt
      (
        (refl, inr (100, 100, finished-IsDated, second_test-IsDated, omega arith)),
        ((refl, inr (100, 100, finished-IsDated, second_test-IsDated, omega arith)), tt),
      )

should_apply_dated_iff_example :
    (should_apply_submission_progress date_of (some finished) rejudged ≡ true) ↔ (
      (100 < 160)
      ⊎ (◌≡◌ {A = ℕ} 100 160
          × (ends_before date_of 100 rejudged ≡ false)
          × (terminal finished ≡ false)
          × ((terminal rejudged ≡ true) ⊎ (moves_on date_of finished rejudged ≡ true))))
should_apply_dated_iff_example =
    should_apply_dated_iff date_of finished rejudged 100 160 finished-IsDated rejudged-IsDated
