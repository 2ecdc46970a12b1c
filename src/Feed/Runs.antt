-- ===== src/Feed/Runs.antt =====
-- `runCode` of competitor-frontend/src/actions/code.ts, with its validation in
-- lib/validation/submission.ts and `executeRun` of lib/runner.ts.
pub mod Exits
use algo_test.Prelude.{
  ℕ, ◌==◌, ◌-◌, ◌+◌, Bool, true, false, ◌||◌, String, Option, none, some, List, [], ◌∷◌, map,
  if◌then◌else◌, get_or_else, or_else, str_eq, Text, codes, to_lower, has_text, trim, is_blank,
  length, ltb, decimal,
}
use Prim.Native.String.{slice, ◌++◌ as str_append}
use algo_test.Feed.Types.{
  SubmissionStatus, queued, running, passed, failed, SubmissionStatusResponse, SubmitResult,
  SubmissionItem,
}
use algo_test.Feed.Backend.{
  Reply, refused, taken, thrown, ErrorBody, nonce_header, language_issue, code_issue,
}

-- competitor-frontend/src/types/code.ts
pub record RunResult : Type 0 where
  pub stdout : String
  pub stderr : String
  pub compile_error : Option String
  pub exit_code : ℕ
  pub time_ms : ℕ
  pub memory_kb : Option ℕ
  pub verdict : Option String

pub record RunInput : Type 0 where
  pub language : Text
  pub code : Text
  pub stdin : Text
  pub problem_id : Option Text

abbrev pub text_of : Option Text → Text
text_of none = []
text_of (some t) = t

-- `runCodeInputSchema`: the message of the first issue.
unfoldable pub run_issue : RunInput → Option String
unfolding language_issue code_issue
run_issue input =
    or_else
      (if ltb 100 (length (trim (text_of input.problem_id)))
        then some "Problem ID too long"
        else none)
      (or_else (language_issue (trim input.language)) (
        or_else (code_issue input.code) (
          if ltb 1000000 (length input.stdin)
          then some "Custom input exceeds maximum limit (1MB)"
          else none)))

-- The body of the request; an empty problem is not sent.
pub record RunRequest : Type 0 where
  pub language : Text
  pub code : Text
  pub stdin : Text
  pub problem_id : Option Text

abbrev pub run_request : RunInput → RunRequest
run_request input = record {
  language = trim input.language;
  code = input.code;
  stdin = input.stdin;
  problem_id = nonce_header (some (trim (text_of input.problem_id)));
}

abbrev pub run_failure : String → ℕ → Option String → RunResult
run_failure message exit_code verdict = record {
  stdout = "";
  stderr = message;
  compile_error = none;
  exit_code = exit_code;
  time_ms = 0;
  memory_kb = none;
  verdict = verdict;
}

abbrev pub is_gate_unavailable : Option String → Bool
is_gate_unavailable none = false
is_gate_unavailable (some code) = str_eq code "GATE_UNAVAILABLE"

-- `executeRun` for an answer that is not ok.
unfoldable pub refused_run : ℕ → ErrorBody → RunResult
refused_run status body =
    if status == 409
    then run_failure
        (get_or_else body.error
          "You already have an active code run in progress. Please wait for it to complete.")
        409 (some "IE")
    else if status == 423 || is_gate_unavailable body.code
    then run_failure
        (get_or_else body.error "Running code needs the proctor client. Start it, then try again.")
        status (some "IE")
    else if status == 503
    then run_failure "Server busy: capacity limit reached. Please retry in a few seconds." 503
        (some "IE")
    else run_failure (get_or_else body.error "run failed") 1 (some "IE")

unfoldable pub run_code : (RunRequest → Reply RunResult) → RunInput → RunResult
run_code answer input = elim (run_issue input) [
  | some message ↦ run_failure (str_append "Error: " message) 1 none
  | none ↦ elim (answer (run_request input)) [
    | refused status body ↦ refused_run status body
    | taken result ↦ result
    | thrown message ↦
        run_failure (str_append "Error: " (get_or_else message "Execution failed")) 1 none
  ]
]
