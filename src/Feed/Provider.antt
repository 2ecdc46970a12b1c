-- ===== src/Feed/Provider.antt =====
-- The state of `SubmissionsProvider`
-- (competitor-frontend/src/components/portal/submissions-provider.tsx) and its updates: progress
-- from the stream and from polling, reviews, the list that is restored when the page opens, and
-- submitting. `router.refresh()` is counted.
pub mod Consistent
use algo_test.Prelude.{
  ℕ, suc, ◌+◌, ◌%◌, Bool, true, false, ◌&&◌, ◌||◌, not, String, Option, none, some, List, [], ◌∷◌,
  ◌++◌, map, if◌then◌else◌, get_or_else, is_some, filled, truthy, str_eq, Text, codes, decimal, ltb,
  length, get_elem?, get_last?, Map, get, put, delete, has, or_else,
}
use algo_test.Feed.Types.{
  SubmissionStatus, queued, running, passed, failed, SubmissionTestResult, SubmissionStatusResponse,
  SubtaskResult, SubmitResult, ActiveSubmission, ReviewStatus, accepted, rejected, ReviewNotice,
  ToastMessage, ToastVariant, success, error, info,
}
use algo_test.Feed.Progress.{should_apply_submission_progress}
use algo_test.Feed.Summary.{summarize_subtasks, verdict_label}

pub record FeedState : Type 0 where
  pub active_submissions : Map ActiveSubmission
  pub latest : Map SubmissionStatusResponse
  pub poll_index : ℕ
  pub last_result : Option SubmitResult
  pub last_review : Option ReviewNotice
  pub toast : Option ToastMessage
  pub refreshes : ℕ

abbrev subtask_of : SubmissionTestResult → SubtaskResult
subtask_of test = record {
  id = test.ordinal;
  points = test.max_points;
  earned = test.points;
  passed = str_eq test.verdict "AC";
  verdict = some test.verdict;
  time_ms = some test.time_ms;
  failed_test = none;
}

unfoldable pub parse_submission_result : SubmissionStatusResponse → SubmitResult
parse_submission_result r = record {
  submission_id = some r.submission_id;
  problem_id = some r.problem_id;
  status = some r.status;
  queue_position = r.queue_position;
  error = none;
  error_code = none;
  seconds_since_ping = none;
  subtasks = map subtask_of (get_or_else r.tests []);
  score = r.score;
  max_score = r.max_score;
  improved_best = false;
  previous_best = 0;
  verdict = r.verdict;
  compile_error = r.compile_error;
}

abbrev is_accepted : Option String → Bool
is_accepted none = false
is_accepted (some v) = str_eq v "AC"

-- `parsed.verdict ? (VERDICT_DETAILS[parsed.verdict]?.label ?? parsed.verdict) : "Failed"`
abbrev label_of : Option String → String
label_of none = "Failed"
label_of (some v) = if filled v then verdict_label v else "Failed"

-- The toast on a finished submission.
unfoldable pub result_toast : String → SubmitResult → ToastMessage
unfolding summarize_subtasks
result_toast id parsed =
    let won = is_accepted parsed.verdict in
    let partial = not won && ltb 0 parsed.score in
    let label = codes (label_of parsed.verdict) in
    let scored =
      codes "Scored "
      ++ (decimal parsed.score
          ++ (codes " / "
              ++ (decimal parsed.max_score
                  ++ (codes " points."
                      ++ (if partial then codes " Verdict: " ++ (label ++ codes ".") else []))))) in
    let explained =
      get_or_else
        (or_else (elim parsed.compile_error [ none ↦ none | some e ↦ some (codes e) ])
          (summarize_subtasks parsed.subtasks))
        (codes "Verdict: " ++ label) in
    record {
      id = codes id;
      title = codes (
          if won
          then "Submission Accepted!"
          else if partial
          then "Partial credit"
          else "Submission Failed");
      description = if won || partial then scored else explained;
      variant = if won then success else if partial then info else error;
    }

-- At most 256 entries are kept: the oldest one is dropped.
unfoldable pub evict : Map SubmissionStatusResponse → Map SubmissionStatusResponse
evict [] = []
evict ((oldest, r) ∷ m) =
    if ltb 256 (length ((oldest, r) ∷ m)) && filled oldest
    then delete oldest ((oldest, r) ∷ m)
    else (oldest, r) ∷ m

-- The entry of a submission that is queued or running.
abbrev pub active_of : SubmissionStatusResponse → ActiveSubmission
active_of r = record {
  id = r.submission_id;
  problem_id = r.problem_id;
  status = r.status;
  queue_position = r.queue_position;
  tests_done = some r.tests_done;
  tests_total = some r.tests_total;
}

-- `data.status === "queued" || data.status === "running"`
abbrev pub is_live : SubmissionStatus → Bool
is_live queued = true
is_live running = true
is_live _ = false

-- What `applyProgress` does with an update that counts.
unfoldable pub show_progress : SubmissionStatusResponse → FeedState → FeedState
show_progress r s =
    let seen = record s { latest = evict (put r.submission_id r s.latest) } in
    let parsed = parse_submission_result r in
    if is_live r.status
    then record seen { active_submissions = put r.submission_id (active_of r) s.active_submissions }
    else record seen {
      active_submissions = delete r.submission_id s.active_submissions;
      last_result = some parsed;
      refreshes = s.refreshes + 1;
      toast = some (result_toast r.submission_id parsed);
    }

unfoldable pub apply_progress :
    (String → Option ℕ) → SubmissionStatusResponse → FeedState → FeedState
apply_progress date_parse r s =
    if not (filled r.submission_id)
      || not (should_apply_submission_progress date_parse (get r.submission_id s.latest) r)
    then s
    else show_progress r s

-- The branch of the stream's handler for a review by an organizer.
unfoldable pub show_review : ReviewStatus → SubmissionStatusResponse → FeedState → FeedState
show_review status r s = record s {
  last_review = some (record {
    submission_id = r.submission_id;
    review_status = status;
    review_reason = r.review_reason;
  });
  toast = some (elim status [
    | rejected ↦ record {
      id = codes "review-" ++ codes r.submission_id;
      title = codes "Submission rejected";
      description =
          if truthy r.review_reason
          then codes "An organizer removed it from the leaderboard: "
            ++ codes (get_or_else r.review_reason "")
          else codes "An organizer removed it from the leaderboard.";
      variant = error;
    }
    | accepted ↦ record {
      id = codes "review-" ++ codes r.submission_id;
      title = codes "Submission reinstated";
      description = codes "An organizer restored it. It counts towards your score again.";
      variant = success;
    }
  ]);
  refreshes = s.refreshes + 1;
}

-- What the stream's handler does with a parsed `submission` event.
unfoldable pub handle_event : (String → Option ℕ) → SubmissionStatusResponse → FeedState → FeedState
unfolding show_review
handle_event date_parse r s = if not (filled r.submission_id) then s else elim r.review_status [
  | some status ↦ show_review status r s
  | none ↦ apply_progress date_parse r s
]
