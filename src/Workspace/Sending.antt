-- ===== src/Workspace/Sending.antt =====
-- The runs and the submissions of competitor-frontend/src/components/workspace/code-workspace.tsx, and
-- the effects on their results. An asynchronous handler is two functions, up to the call of the
-- server and from its end on.
use algo_test.Prelude.{
  ℕ, ◌-◌, max, Bool, true, false, ◌||◌, not, String, Option, none, some, [], ◌++◌, if◌then◌else◌,
  Text, codes, text_eq, str_eq, trim, is_blank, ltb, any, truthy, get_or_else, decimal, Map,
}
use algo_test.History.{ran, submitted, Extra}
use algo_test.Feed.Types.{SubmitResult, ActiveSubmission}
use algo_test.Feed.Provider.{FeedState}
use algo_test.Feed.Actions.{same_problem}
use algo_test.Feed.Backend.{status_name}
use algo_test.Feed.Runs.{RunResult}
use algo_test.Workspace.{
  EditorTelemetry, Workspace, Contest, Stamp, nothing_more, record_in, test_tab, submission_tab,
}

-- What `runCode` is called with.
pub record RunCall : Type 0 where
  pub language : Text
  pub code : Text
  pub stdin : Text
  pub problem_id : String

abbrev empty_code_result : RunResult
empty_code_result = record {
  stdout = "";
  stderr = "Error: Cannot run empty code";
  compile_error = none;
  exit_code = 1;
  time_ms = 0;
  memory_kb = none;
  verdict = none;
}

abbrev pub is_run_disabled : Bool → Contest → Workspace → Bool
is_run_disabled is_run_enabled contest s =
    not is_run_enabled
    || s.running
    || ltb 0 s.run_cooldown
    || contest.is_paused
    || contest.is_not_started

-- `handleRun` up to the call of `runCode`.
unfoldable pub handle_run : Bool → String → Contest → Stamp → Workspace → Workspace × Option RunCall
unfolding trim
handle_run is_run_enabled problem_id contest stamp s =
    if is_run_disabled is_run_enabled contest s
    then (s, none)
    else if is_blank (trim s.code)
    then (record s { tab = test_tab; run_result = some empty_code_result }, none)
    else (
      record_in stamp ran s.language.id s.code nothing_more
          (record s { tab = test_tab; running = true; run_result = none }),
      some (record {
        language = s.language.id;
        code = s.code;
        stdin = s.stdin;
        problem_id = problem_id;
      }),
    )

-- `handleRun` from the end of `runCode` on, which may throw.
unfoldable pub end_run : Option RunResult → Workspace → Workspace
end_run none s = record s { running = false }
end_run (some result) s = record s { run_result = some result; run_cooldown = 3; running = false }

-- `Object.values(activeSubmissions).some((submission) => submission.problemId === problem.id)`
abbrev pub has_active : String → Map ActiveSubmission → Bool
has_active problem_id m = any (λ entry. str_eq entry.1.problem_id problem_id) m

abbrev pub active_result : String → FeedState → Workspace → Option SubmitResult
active_result problem_id feed s =
    if same_problem feed.last_result problem_id then feed.last_result else s.submit_result

abbrev score_of : Option SubmitResult → ℕ
score_of none = 0
score_of (some r) = r.score

-- What `submitFast` is called with.
pub record SubmitCall : Type 0 where
  pub problem_id : String
  pub code : Text
  pub previous_best : ℕ
  pub language : Text
  pub telemetry : Option EditorTelemetry

abbrev pub is_submit_disabled : String → Contest → FeedState → Workspace → Bool
is_submit_disabled problem_id contest feed s =
    s.submitting
    || has_active problem_id feed.active_submissions
    || ltb 0 s.submit_cooldown
    || contest.is_paused
    || contest.is_ended
    || contest.is_not_started

-- `handleSubmit` up to the call of `submitFast`.
unfoldable pub handle_submit :
    String → Contest → FeedState → Workspace → Workspace × Option SubmitCall
handle_submit problem_id contest feed s =
    if is_submit_disabled problem_id contest feed s then (s, none) else (
      record s { tab = submission_tab; submitting = true; submit_result = none },
      some (record {
        problem_id = problem_id;
        code = s.code;
        previous_best = max s.stored_best (score_of (active_result problem_id feed s));
        language = s.language.id;
        telemetry = s.editor_telemetry;
      }),
    )

abbrev verdict_text : Option String → Option Text
verdict_text none = none
verdict_text (some verdict) = some (codes verdict)

abbrev extra_of : String → SubmitResult → Extra
extra_of id r = record {
  verdict = verdict_text r.verdict;
  score = some r.score;
  max_score = some r.max_score;
  submission_id = some (codes id);
}

-- `record("submitted", …)` of a result, with the language and the code that are given.
abbrev record_result : Stamp → Text → Text → SubmitResult → Workspace → Workspace
record_result stamp language code r s =
    record_in stamp submitted language code (extra_of (get_or_else r.submission_id "") r) s

-- `handleSubmit` from the end of `submitFast` on, which does not throw.
unfoldable pub end_submit : Stamp → SubmitCall → SubmitResult → Workspace → Workspace
end_submit stamp call r s =
    let shown = record s { submit_result = some r; submitting = false; submit_cooldown = 3 } in
    if truthy r.submission_id then record_result stamp call.language call.code r shown else shown

abbrev name_or_empty : Option String → Text
name_or_empty none = []
name_or_empty (some name) = codes name

-- `[id, status, verdict, score, maxScore].join(":")`
unfoldable pub result_version : SubmitResult → Text
result_version r =
    name_or_empty r.submission_id
    ++ codes ":"
    ++ name_or_empty (elim r.status [ none ↦ none | some status ↦ some (status_name status) ])
    ++ codes ":"
    ++ name_or_empty r.verdict
    ++ codes ":"
    ++ decimal r.score
    ++ codes ":"
    ++ decimal r.max_score

abbrev pub is_recorded : Text → Option Text → Bool
is_recorded version none = false
is_recorded version (some recorded) = text_eq recorded version

-- The effect on a result that is shown.
unfoldable pub result_effect : Stamp → Option SubmitResult → Workspace → Workspace
unfolding result_version
result_effect stamp none s = s
result_effect stamp (some r) s =
    if not (truthy r.submission_id) || is_recorded (result_version r) s.recorded_result
    then s
    else record_result stamp s.language.id s.code r (record s {
      recorded_result = some (result_version r);
      stored_best = max s.stored_best r.score;
    })

-- One second of a countdown.
abbrev pub tick_run : Workspace → Workspace
tick_run s = record s { run_cooldown = s.run_cooldown - 1 }

abbrev pub tick_submit : Workspace → Workspace
tick_submit s = record s { submit_cooldown = s.submit_cooldown - 1 }
