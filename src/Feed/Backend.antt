-- ===== src/Feed/Backend.antt =====
-- The server actions of competitor-frontend/src/actions/code.ts, with their validation in
-- lib/validation/submission.ts; those that run code stand in Runs.antt. What the backend answers is an
-- argument, and so is the message of the zod library for a number above its bound.
pub mod Taken
pub mod Listed
use algo_test.Prelude.{
  ℕ, ◌==◌, ◌-◌, ◌+◌, Bool, true, false, ◌||◌, String, Option, none, some, List, [], ◌∷◌, map,
  if◌then◌else◌, get_or_else, or_else, str_eq, Text, codes, to_lower, has_text, trim, is_blank,
  length, ltb, decimal,
}
use Prim.Native.String.{slice, ◌++◌ as str_append}
use algo_test.Feed.Types.{
  SubmissionStatus, queued, running, passed, failed, SubmissionStatusResponse, SubmitResult,
  SubmissionItem,
}

abbrev pub supported_languages : List Text
supported_languages =
    codes "c"
    ∷ codes "cpp"
    ∷ codes "c++"
    ∷ codes "py"
    ∷ codes "python"
    ∷ codes "python3"
    ∷ codes "java"
    ∷ codes "js"
    ∷ codes "javascript"
    ∷ codes "node"
    ∷ codes "rust"
    ∷ codes "rs"
    ∷ []

-- The first issue of the language, given trimmed.
unfoldable pub language_issue : Text → Option String
language_issue language =
    if is_blank language
    then some "Language is required"
    else if ltb 20 (length language)
    then some "Language identifier too long"
    else if has_text (map to_lower language) supported_languages
    then none
    else some "Unsupported programming language"

unfoldable pub code_issue : Text → Option String
code_issue code =
    if is_blank code
    then some "Code cannot be empty"
    else if ltb 100000 (length code)
    then some "Code exceeds maximum limit (100KB)"
    else none

unfoldable pub problem_issue : Text → Option String
problem_issue problem_id =
    if is_blank problem_id
    then some "Problem ID is required"
    else if ltb 100 (length problem_id)
    then some "Problem ID too long"
    else none

abbrev pub nonce_issue : Option Text → Option String
nonce_issue none = none
nonce_issue (some nonce) =
    if ltb 256 (length nonce) then some "Attestation nonce too long" else none

abbrev pub bound_issue : (ℕ → String) → ℕ → Option ℕ → Option String
bound_issue too_big bound none = none
bound_issue too_big bound (some n) = if ltb bound n then some (too_big bound) else none

pub record SubmissionTelemetry : Type 0 where
  pub typed_count : Option ℕ
  pub paste_count : Option ℕ
  pub pasted_chars : Option ℕ
  pub max_paste_size : Option ℕ

-- The arguments of `submitCode`.
pub record SubmitInput : Type 0 where
  pub problem_id : Text
  pub code : Text
  pub previous_best : ℕ
  pub language : Text
  pub attest_nonce : Option Text
  pub telemetry : SubmissionTelemetry

-- `submitCodeInputSchema`: the message of the first issue.
unfoldable pub submit_issue : (ℕ → String) → SubmitInput → Option String
unfolding language_issue code_issue problem_issue
submit_issue too_big input = or_else (problem_issue (trim input.problem_id)) (
    or_else (language_issue (trim input.language)) (
      or_else (code_issue input.code) (
        or_else (bound_issue too_big 10000 (some input.previous_best)) (
          or_else (nonce_issue input.attest_nonce) (
            or_else (bound_issue too_big 1000000 input.telemetry.typed_count) (
              or_else (bound_issue too_big 100000 input.telemetry.paste_count) (
                or_else (bound_issue too_big 1000000 input.telemetry.pasted_chars)
                  (bound_issue too_big 1000000 input.telemetry.max_paste_size))))))))

-- The header and the body of the request.
pub record SubmitRequest : Type 0 where
  pub attest : Option Text
  pub problem_id : Text
  pub language : Text
  pub code : Text
  pub telemetry : SubmissionTelemetry

abbrev pub nonce_header : Option Text → Option Text
nonce_header none = none
nonce_header (some nonce) = if is_blank nonce then none else some nonce

abbrev pub request_of : SubmitInput → SubmitRequest
request_of input = record {
  attest = nonce_header input.attest_nonce;
  problem_id = trim input.problem_id;
  language = trim input.language;
  code = input.code;
  telemetry = input.telemetry;
}

pub record SubmitData : Type 0 where
  pub id : Option String
  pub status : Option SubmissionStatus
  pub queue_position : Option ℕ
  pub max_score : Option ℕ

pub record ErrorBody : Type 0 where
  pub error : Option String
  pub code : Option String
  pub seconds_since_ping : Option ℕ

-- How a request ends: refused with a status and a body, empty where it cannot be read, taken, or
-- without an answer that can be read.
pub data Reply {ℓ} (A : Type ℓ) : Type ℓ where
  refused : ℕ → ErrorBody → Reply A
  taken : A → Reply A
  thrown : Option String → Reply A

-- A text of digits as a string.
unfoldable pub digit_string : Text → String
digit_string [] = ""
digit_string (c ∷ s) = str_append (slice "0123456789" (c - b'0') (c - b'0' + 1)) (digit_string s)

abbrev pub error_result : ℕ → String → Option String → Option ℕ → SubmitResult
error_result previous_best message code seconds = record {
  submission_id = none;
  problem_id = none;
  status = none;
  queue_position = none;
  error = some message;
  error_code = code;
  seconds_since_ping = seconds;
  subtasks = [];
  score = previous_best;
  max_score = 100;
  improved_best = false;
  previous_best = previous_best;
  verdict = none;
  compile_error = none;
}

-- `submitCode` from the reply on.
unfoldable pub result_of : ℕ → Reply SubmitData → SubmitResult
unfolding digit_string
result_of previous_best (refused status body) =
    error_result previous_best
      (get_or_else body.error
        (str_append "Submission failed (" (str_append (digit_string (decimal status)) ")")))
      body.code body.seconds_since_ping
result_of previous_best (thrown message) =
    error_result previous_best
      (get_or_else message "Failed to queue submission. Please check your connection.") none none
result_of previous_best (taken answered) = record {
  submission_id = answered.id;
  problem_id = none;
  status = answered.status;
  queue_position = answered.queue_position;
  error = none;
  error_code = none;
  seconds_since_ping = none;
  subtasks = [];
  score = 0;
  max_score = get_or_else answered.max_score 100;
  improved_best = false;
  previous_best = previous_best;
  verdict = none;
  compile_error = none;
}

unfoldable pub submit_code :
    (ℕ → String) → (SubmitRequest → Reply SubmitData) → SubmitInput → SubmitResult
submit_code too_big answer input = elim (submit_issue too_big input) [
  | some message ↦ error_result input.previous_best message none none
  | none ↦ result_of input.previous_best (answer (request_of input))
]

-- `getSubmissionStatusAction`
abbrev pub get_submission_status : Reply SubmissionStatusResponse → Option SubmissionStatusResponse
get_submission_status (refused status body) = none
get_submission_status (taken response) = some response
get_submission_status (thrown message) = none

-- competitor-frontend/src/types/submission.ts
pub record BackendSubmissionItem : Type 0 where
  pub response : SubmissionStatusResponse
  pub user_name : String
  pub user_email : String
  pub team_name : String
  pub problem_title : String
  pub language : String
  pub code : String
  pub reviewed_by : Option String

abbrev pub status_name : SubmissionStatus → String
status_name queued = "queued"
status_name running = "running"
status_name passed = "passed"
status_name failed = "failed"

-- `Date` is an argument: the time of a text, and how that time is written.
module _ (get_time : String → ℕ) (to_locale_time : String → String) where
  unfoldable pub listed_item : BackendSubmissionItem → SubmissionItem
  listed_item item = record {
    id = item.response.submission_id;
    submission_id = item.response.submission_id;
    problem_id = some item.response.problem_id;
    problem_title = item.problem_title;
    submitted_by = item.user_name;
    team_name = item.team_name;
    language = item.language;
    code = some item.code;
    score = item.response.score;
    max_score = item.response.max_score;
    status = get_or_else item.response.verdict (status_name item.response.status);
    review_status = item.response.review_status;
    review_reason = item.response.review_reason;
    submitted_at = to_locale_time item.response.created_at;
    timestamp = get_time item.response.created_at;
  }

  -- `listSubmissionsAction`; the list may be absent from the answer.
  unfoldable pub list_submissions :
      Reply (Option (List BackendSubmissionItem)) → List SubmissionItem
  unfolding listed_item
  list_submissions (refused status body) = []
  list_submissions (taken submissions) = map listed_item (get_or_else submissions [])
  list_submissions (thrown message) = []
