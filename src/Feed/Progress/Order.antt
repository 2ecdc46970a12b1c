-- ===== src/Feed/Progress/Order.antt =====
-- Which updates replace a shown one: the rule over parsed dates, and what a settled submission
-- still accepts.
use algo_test.Prelude.{
  ℕ, ◌<◌, ◌≡◌, String, Bool, true, false, ◌&&◌, not, Option, some, ◌⊎◌, ◌↔◌, arith, leb, truthy,
}
use algo_test.Feed.Types.{SubmissionStatusResponse}
use algo_test.Feed.Progress.{
  terminal, is_running, is_queued, later, time_of, should_apply_submission_progress,
}

module _ (date_parse : String → Option ℕ) where
  -- An update that carries the start of its attempt, as the time value `start`.
  pub record IsDated (start : ℕ) (r : SubmissionStatusResponse) : Type 0 where
    pub started : truthy r.attempt_started_at ≡ true
    pub parsed : time_of date_parse r.attempt_started_at ≡ some start

  -- The update gives a finish that lies before `start`.
  abbrev pub ends_before : ℕ → SubmissionStatusResponse → Bool
  ends_before start r =
      truthy r.finished_at && later (some start) (time_of date_parse r.finished_at)

  -- Within one attempt an unfinished submission moves on: it does not go back from running to
  -- queued, and does not lose tests.
  abbrev pub moves_on : SubmissionStatusResponse → SubmissionStatusResponse → Bool
  moves_on previous next =
      not (is_running previous.status && is_queued next.status)
      && leb previous.tests_done next.tests_done

  -- For updates that carry their attempt's start, the next one is applied exactly when it is of a
  -- later attempt, or of the same attempt, with no finish before its start, with the shown one
  -- unfinished, and itself finished or further on.
  pub should_apply_dated_iff :
      (previous next : SubmissionStatusResponse) (a b : ℕ)
      → IsDated a previous
      → IsDated b next
      → (should_apply_submission_progress date_parse (some previous) next ≡ true) ↔ (
          (a < b)
          ⊎ ((a ≡ b)
              × (ends_before a next ≡ false)
              × (terminal previous ≡ false)
              × ((terminal next ≡ true) ⊎ (moves_on previous next ≡ true))))
  unfolding should_apply_submission_progress
  should_apply_dated_iff previous next a b p n = ground arith

  -- A finished submission that is shown gives way only to an update with the start of an attempt:
  -- a start after the one shown, or, where none is shown, after the finish shown, if any.
  pub should_apply_finished :
      (previous next : SubmissionStatusResponse)
      → terminal previous ≡ true
      → should_apply_submission_progress date_parse (some previous) next ≡ true
      → (truthy next.attempt_started_at ≡ true)
        × (((truthy previous.attempt_started_at ≡ true)
              × (later
                    (time_of date_parse next.attempt_started_at)
                    (time_of date_parse previous.attempt_started_at)
                  ≡ true))
            ⊎ ((truthy previous.attempt_started_at ≡ false)
                × ((truthy previous.finished_at ≡ false)
                    ⊎ (later
                          (time_of date_parse next.attempt_started_at)
                          (time_of date_parse previous.finished_at)
                        ≡ true))))
  unfolding should_apply_submission_progress
  should_apply_finished previous next done h = ground arith
