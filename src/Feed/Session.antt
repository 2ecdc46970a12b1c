-- ===== src/Feed/Session.antt =====
-- A session of `SubmissionsProvider`
-- (competitor-frontend/src/components/portal/submissions-provider.tsx): the effects and callbacks
-- as events, in the order in which the browser runs them.
pub mod Consistent
pub mod Stale
use algo_test.Prelude.{ℕ, String, Option, none, List, [], ◌∷◌, Text}
use algo_test.Feed.Types.{SubmissionStatusResponse, SubmissionItem}
use algo_test.Feed.Provider.{FeedState, handle_event}
use algo_test.Feed.Actions.{restore_active, poll, SubmitOutcome, submit_start, submit_end}

pub data FeedEvent : Type 0 where
  stream_event : SubmissionStatusResponse → FeedEvent
  poll_round : List String → (String → Option SubmissionStatusResponse) → FeedEvent
  list_loaded : List SubmissionItem → FeedEvent
  submit_started : String → FeedEvent
  submit_ended : Text → String → ℕ → SubmitOutcome → FeedEvent
  toast_cleared : FeedEvent

abbrev pub opened : FeedState
opened = record {
  active_submissions = [];
  latest = [];
  poll_index = 0;
  last_result = none;
  last_review = none;
  toast = none;
  refreshes = 0;
}

module _ (date_parse : String → Option ℕ) where
  unfoldable pub step : FeedState → FeedEvent → FeedState
  step s (stream_event r) = handle_event date_parse r s
  step s (poll_round ids answer) = poll date_parse answer ids s
  step s (list_loaded items) = restore_active items s
  step s (submit_started problem_id) = submit_start problem_id s
  step s (submit_ended now problem_id previous_best outcome) =
      (submit_end now problem_id previous_best outcome s).0
  step s toast_cleared = record s { toast = none }

  unfoldable pub run : FeedState → List FeedEvent → FeedState
  unfolding step
  run s [] = s
  run s (e ∷ events) = run (step s e) events
