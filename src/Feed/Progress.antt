-- ===== src/Feed/Progress.antt =====
-- competitor-frontend/src/lib/submission-progress.ts: whether a status update of a submission
-- replaces the one that is shown. Updates come over the event stream and by polling, late and out
-- of order.
pub mod Order
pub mod Delivery
use algo_test.Prelude.{
  ℕ, String, Bool, true, false, ◌&&◌, ◌||◌, not, Option, none, some, List, [], ◌∷◌, ltb, leb, ◌==◌,
  if◌then◌else◌, truthy, filled,
}
use algo_test.Feed.Types.{
  SubmissionStatus, queued, running, passed, failed, SubmissionStatusResponse,
}

-- `terminal(value)`
abbrev pub terminal : SubmissionStatusResponse → Bool
terminal value = elim value.status [ passed ↦ true | failed ↦ true | _ ↦ false ]

abbrev pub is_running : SubmissionStatus → Bool
is_running running = true
is_running _ = false

abbrev pub is_queued : SubmissionStatus → Bool
is_queued queued = true
is_queued _ = false

-- `Date.parse` gives a number of milliseconds, counted here from the least time value of
-- ECMAScript, or `none` for NaN. Each comparison with NaN is false, and `!==` is true.
abbrev pub later : Option ℕ → Option ℕ → Bool
later (some a) (some b) = ltb b a
later _ _ = false

abbrev pub differs : Option ℕ → Option ℕ → Bool
differs (some a) (some b) = not (a == b)
differs _ _ = true

module _ (date_parse : String → Option ℕ) where
  -- `Date.parse` of a field that the code has tested to be there.
  abbrev pub time_of : Option String → Option ℕ
  time_of none = none
  time_of (some s) = date_parse s

  -- The `if … else if` chain on the attempts: the result that it returns early, if any.
  attempt_result : SubmissionStatusResponse → SubmissionStatusResponse → Option Bool
  attempt_result previous next =
      let before = time_of previous.attempt_started_at in
      let after = time_of next.attempt_started_at in
      if truthy previous.attempt_started_at && truthy next.attempt_started_at
      then (if differs before after then some (later after before) else none)
      else if truthy next.attempt_started_at
      then some (not (truthy previous.finished_at) || later after (time_of previous.finished_at))
      else if truthy previous.attempt_started_at && not (terminal next)
      then some false
      else none

  -- What follows the chain, for two updates of one attempt.
  same_attempt_result : SubmissionStatusResponse → SubmissionStatusResponse → Bool
  same_attempt_result previous next =
      if truthy next.finished_at
        && truthy previous.attempt_started_at
        && later (time_of previous.attempt_started_at) (time_of next.finished_at)
      then false
      else if terminal previous
      then false
      else if terminal next
      then true
      else if is_running previous.status && is_queued next.status
      then false
      else leb previous.tests_done next.tests_done

  unfoldable pub should_apply_submission_progress :
      Option SubmissionStatusResponse → SubmissionStatusResponse → Bool
  unfolding attempt_result same_attempt_result
  should_apply_submission_progress none next = true
  should_apply_submission_progress (some previous) next = elim (attempt_result previous next) [
    | some result ↦ result
    | none ↦ same_attempt_result previous next
  ]
