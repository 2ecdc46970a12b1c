-- ===== src/Tests/Data.antt =====
-- Concrete submissions, dates and states.
use algo_test.Prelude.{ℕ, String, Option, none, some, [], ◌∷◌, str_eq, if◌then◌else◌}
use algo_test.Feed.Types.{
  SubmissionStatus, running, passed, SubmissionStatusResponse, SubmissionItem,
}
use algo_test.Feed.Provider.{FeedState}
use algo_test.Feed.Session.{opened}

-- Two starts of an attempt and a finish.
abbrev pub date_of : String → Option ℕ
date_of s =
    if str_eq s "10:00"
    then some 100
    else if str_eq s "10:01"
    then some 160
    else if str_eq s "10:02"
    then some 220
    else none

abbrev pub update : SubmissionStatus → ℕ → Option String → SubmissionStatusResponse
update status done finish = record {
  submission_id = "s1";
  user_id = "u1";
  team_id = "t1";
  problem_id = "p1";
  status = status;
  verdict = none;
  score = 0;
  max_score = 100;
  tests_total = 4;
  tests_done = done;
  compile_error = none;
  queue_position = none;
  tests = none;
  created_at = "10:00";
  finished_at = finish;
  attempt_started_at = some "10:00";
  review_status = none;
  review_reason = none;
  reviewed_at = none;
}

abbrev pub second_test : SubmissionStatusResponse
second_test = update running 2 none

abbrev pub finished : SubmissionStatusResponse
finished = update passed 4 (some "10:01")

-- A judging that began a minute later.
abbrev pub rejudged : SubmissionStatusResponse
rejudged = record (update running 1 none) { attempt_started_at = some "10:01" }

abbrev pub listed : SubmissionItem
listed = record {
  id = "s1";
  submission_id = "s1";
  problem_id = some "p1";
  problem_title = "Sum";
  submitted_by = "alice";
  team_name = "alpha";
  language = "cpp";
  code = none;
  score = 0;
  max_score = 100;
  status = "running";
  review_status = none;
  review_reason = none;
  submitted_at = "10:00";
  timestamp = 0;
}

-- After the update that it is finished.
abbrev pub shown_finished : FeedState
shown_finished = record opened { latest = ("s1", finished) ∷ [] }
