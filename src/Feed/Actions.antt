-- ===== src/Feed/Actions.antt =====
-- The rest of `SubmissionsProvider`
-- (competitor-frontend/src/components/portal/submissions-provider.tsx): the submissions that are
-- restored when the page opens, one round of polling, and `submitFast`.
pub mod Polling
pub mod Spread
use algo_test.Prelude.{
  to_lower, ℕ, suc, ◌+◌, ◌-◌, ◌%◌, Bool, true, false, ◌&&◌, ◌||◌, not, String, Option, none, some,
  List, [], ◌∷◌, map, if◌then◌else◌, get_or_else, filled, truthy, str_eq, Text, codes, leb,
  starts_with, text_eq, length, get_elem?, Map, get, put, has, select, ◌++◌,
}
use algo_test.Feed.Types.{
  SubmissionStatus, queued, running, SubmissionStatusResponse, SubmitResult, ActiveSubmission,
  SubmissionItem, ToastMessage, error,
}
use algo_test.Feed.Provider.{FeedState, apply_progress}

-- The status of a listed submission that is not finished.
unfoldable pub live_status : String → Option SubmissionStatus
live_status s =
    let status = map to_lower (codes s) in
    if text_eq status (codes "queued")
    then some queued
    else if text_eq status (codes "running")
    then some running
    else none

-- The entry that a listed submission gets.
abbrev pub restored_entry : SubmissionItem → SubmissionStatus → ActiveSubmission
restored_entry item status = record {
  id = item.submission_id;
  problem_id = get_or_else item.problem_id "";
  status = status;
  queue_position = none;
  tests_done = none;
  tests_total = none;
}

abbrev pub restore_item :
    SubmissionItem → Option SubmissionStatus → Map ActiveSubmission → Map ActiveSubmission
restore_item item none m = m
restore_item item (some status) m =
    if truthy item.problem_id then put item.submission_id (restored_entry item status) m else m

-- The loop over the listed submissions.
unfoldable pub restored : Map ActiveSubmission → List SubmissionItem → Map ActiveSubmission
restored m [] = m
restored m (item ∷ items) = restored (restore_item item (live_status item.status) m) items

-- `{ ...m, ...current }`: the keys of `m` keep their places, and `current` wins.
module _ {ℓ} {V : Type ℓ} where
  unfoldable pub override : Map V → Map V → Map V
  override current [] = []
  override current ((k, v) ∷ m) = (k, get_or_else (get k current) v) ∷ override current m

  unfoldable pub spread : Map V → Map V → Map V
  unfolding override
  spread m current = override current m ++ select (λ entry. not (has entry.0 m)) current

-- `setActiveSubmissions`, if anything is restored.
abbrev pub merge_restored : Map ActiveSubmission → FeedState → FeedState
merge_restored [] s = s
merge_restored (e ∷ m) s = record s { active_submissions = spread (e ∷ m) s.active_submissions }

unfoldable pub restore_active : List SubmissionItem → FeedState → FeedState
restore_active items s = merge_restored (restored [] items) s

-- `ids[pollIndex.current % ids.length]`, with the ids of the active submissions.
unfoldable pub poll_target : List String → ℕ → Option String
poll_target ids index = get_elem? ids (index % length ids)

-- One round of the interval, where `answer` is what the backend says of an id.
unfoldable pub poll :
    (String → Option ℕ)
    → (String → Option SubmissionStatusResponse)
    → List String
    → FeedState
    → FeedState
unfolding poll_target
poll date_parse answer ids s =
    let polled = record s { poll_index = s.poll_index + 1 } in
    elim (poll_target ids s.poll_index) [
      | none ↦ polled
      | some id ↦ elim (answer id) [ none ↦ polled | some r ↦ apply_progress date_parse r polled ]
    ]

-- How the server action `submitCode` ends.
pub data SubmitOutcome : Type 0 where
  resolved : SubmitResult → SubmitOutcome
  thrown : String → SubmitOutcome

abbrev pub same_problem : Option SubmitResult → String → Bool
same_problem none problem_id = false
same_problem (some r) problem_id = elim r.problem_id [ none ↦ false | some p ↦ str_eq p problem_id ]

abbrev is_gate_code : Option String → Bool
is_gate_code none = false
is_gate_code (some code) = starts_with (codes code) (codes "AGENT_") || str_eq code "NOT_ATTESTED"

-- `setToast` on an error; `now` is `Date.now().toString()`.
abbrev error_toast : Text → String → String → FeedState → FeedState
error_toast now title description s = record s {
  toast =
      some (record {
        id = now;
        title = codes title;
        description = codes description;
        variant = error;
      });
}

-- A submission that the backend has taken, unless an update of it has already come.
unfoldable pub track_submission : String → String → Option ℕ → FeedState → FeedState
track_submission id problem_id queue_position s = if has id s.latest then s else record s {
  active_submissions =
      put id
        (record {
          id = id;
          problem_id = problem_id;
          status = queued;
          queue_position = queue_position;
          tests_done = none;
          tests_total = none;
        })
        s.active_submissions;
}

-- `submitFast` up to the call of the server action: the result of the same problem is taken down.
unfoldable pub submit_start : String → FeedState → FeedState
submit_start problem_id s =
    if same_problem s.last_result problem_id then record s { last_result = none } else s

-- The result that `submitFast` gives when the server action throws.
abbrev thrown_result : ℕ → String → SubmitResult
thrown_result previous_best message = record {
  submission_id = none;
  problem_id = none;
  status = none;
  queue_position = none;
  error = some message;
  error_code = none;
  seconds_since_ping = none;
  subtasks = [];
  score = previous_best;
  max_score = 100;
  improved_best = false;
  previous_best = previous_best;
  verdict = none;
  compile_error = none;
}

-- `submitFast` from the end of the server action on; other updates may come in between.
unfoldable pub submit_end : Text → String → ℕ → SubmitOutcome → FeedState → FeedState × SubmitResult
unfolding track_submission
submit_end now problem_id previous_best (thrown message) s =
    (error_toast now "Submission Error" message s, thrown_result previous_best message)
submit_end now problem_id previous_best (resolved r) s =
    if truthy r.error
    then (
      error_toast now
          (if is_gate_code r.error_code then "Submissions are locked" else "Submission Error")
          (get_or_else r.error "") s,
      r,
    )
    else if truthy r.submission_id
    then (track_submission (get_or_else r.submission_id "") problem_id r.queue_position s, r)
    else (s, r)
