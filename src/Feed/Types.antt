-- ===== src/Feed/Types.antt =====
-- competitor-frontend/src/types/submission.ts and code.ts: the data of a submission.
use algo_test.Prelude.{ℕ, String, Bool, List, Option, Text}

pub data SubmissionStatus : Type 0 where
  queued running passed failed : SubmissionStatus

pub data ReviewStatus : Type 0 where
  accepted rejected : ReviewStatus

pub record SubmissionTestResult : Type 0 where
  pub submission_id : String
  pub ordinal : ℕ
  pub verdict : String
  pub time_ms : ℕ
  pub memory_kb : ℕ
  pub points : ℕ
  pub max_points : ℕ

pub record SubmissionStatusResponse : Type 0 where
  pub submission_id : String
  pub user_id : String
  pub team_id : String
  pub problem_id : String
  pub status : SubmissionStatus
  pub verdict : Option String
  pub score : ℕ
  pub max_score : ℕ
  pub tests_total : ℕ
  pub tests_done : ℕ
  pub compile_error : Option String
  pub queue_position : Option ℕ
  pub tests : Option (List SubmissionTestResult)
  pub created_at : String
  pub finished_at : Option String
  pub attempt_started_at : Option String
  pub review_status : Option ReviewStatus
  pub review_reason : Option String
  pub reviewed_at : Option String

pub record SubtaskResult : Type 0 where
  pub id : ℕ
  pub points : ℕ
  pub earned : ℕ
  pub passed : Bool
  pub verdict : Option String
  pub time_ms : Option ℕ
  pub failed_test : Option ℕ

pub record SubmitResult : Type 0 where
  pub submission_id : Option String
  pub problem_id : Option String
  pub status : Option SubmissionStatus
  pub queue_position : Option ℕ
  pub error : Option String
  pub error_code : Option String
  pub seconds_since_ping : Option ℕ
  pub subtasks : List SubtaskResult
  pub score : ℕ
  pub max_score : ℕ
  pub improved_best : Bool
  pub previous_best : ℕ
  pub verdict : Option String
  pub compile_error : Option String

pub record ActiveSubmission : Type 0 where
  pub id : String
  pub problem_id : String
  pub status : SubmissionStatus
  pub queue_position : Option ℕ
  pub tests_done : Option ℕ
  pub tests_total : Option ℕ

pub record ReviewNotice : Type 0 where
  pub submission_id : String
  pub review_status : ReviewStatus
  pub review_reason : Option String

pub data ToastVariant : Type 0 where
  success error info : ToastVariant

pub record ToastMessage : Type 0 where
  pub id : Text
  pub title : Text
  pub description : Text
  pub variant : ToastVariant

pub record SubmissionItem : Type 0 where
  pub id : String
  pub submission_id : String
  pub problem_id : Option String
  pub problem_title : String
  pub submitted_by : String
  pub team_name : String
  pub language : String
  pub code : Option String
  pub score : ℕ
  pub max_score : ℕ
  pub status : String
  pub review_status : Option ReviewStatus
  pub review_reason : Option String
  pub submitted_at : String
  pub timestamp : ℕ
