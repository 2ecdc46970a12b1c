-- ===== src/Workspace/Desk.antt =====
-- The workspace of competitor-frontend/src/components/workspace/code-workspace.tsx together with the
-- portal that it submits through: what can happen, one event after the other.
use algo_test.Prelude.{ℕ, ◌+◌, Bool, String, Option, none, some, List, [], ◌∷◌, Text, codes}
use algo_test.History.{Snapshot}
use algo_test.History.Merge.{sync_submissions}
use algo_test.Feed.Types.{SubmissionItem}
use algo_test.Feed.Provider.{FeedState}
use algo_test.Feed.Actions.{SubmitOutcome, submit_start, submit_end}
use algo_test.Feed.Backend.{SubmissionTelemetry, SubmitInput}
use algo_test.Feed.Runs.{RunResult}
use algo_test.Workspace.{
  EditorTelemetry, Workspace, Contest, Stamp, load_draft, save_code, handle_language_change,
  handle_code_change, change_stdin, handle_restore,
}
use algo_test.Workspace.Sending.{
  SubmitCall, handle_run, end_run, handle_submit, end_submit, result_effect, active_result,
  tick_run, tick_submit,
}
use algo_test.Workspace.Keys.{
  EditorKey, WindowKey, Shortcut, to_submit, to_run, to_save, editor_key_down, handle_paste,
  shortcut_of,
}

-- The workspace of a problem, the portal, the call of `submitFast` that has not ended, and all that
-- have been made, the latest first.
pub record Desk : Type 0 where
  pub workspace : Workspace
  pub feed : FeedState
  pub contest : Contest
  pub pending : Option SubmitCall
  pub calls : List SubmitCall

pub data Event : Type 0 where
  draft_loads : List Snapshot → Event
  code_changes stdin_changes : Text → Event
  language_changes : Stamp → Option Text → Event
  key_typed : EditorKey → Event
  text_pasted : ℕ → Event
  shortcut_pressed : Stamp → WindowKey → Event
  autosave_due run_pressed : Stamp → Event
  run_ends : Option RunResult → Event
  submit_pressed : Event
  submit_ends : Text → Stamp → SubmitOutcome → Event
  result_shown : Stamp → Event
  run_ticks submit_ticks : Event
  restored : Snapshot → Event
  submissions_listed : ℕ → Bool → List SubmissionItem → Event
  feed_turns : FeedState → Event
  contest_turns : Contest → Event

abbrev on_workspace : (Workspace → Workspace) → Desk → Desk
on_workspace f d = record d { workspace = f d.workspace }

abbrev begun : Option SubmitCall → Workspace → Desk → Desk
begun none s d = d
begun (some call) s d = record d {
  workspace = s;
  feed = submit_start call.problem_id d.feed;
  pending = some call;
  calls = call ∷ d.calls;
}

-- The history hook's effect, for the snapshots of the workspace.
abbrev pub list_submissions : ℕ → Bool → List SubmissionItem → Workspace → Workspace
list_submissions now is_cancelled subs s = record s {
  snapshots = sync_submissions now is_cancelled subs s.snapshots;
}

unfoldable pub submit_now : String → Desk → Desk
submit_now problem_id d =
    let (s, call) = handle_submit problem_id d.contest d.feed d.workspace in begun call s d

abbrev pub run_now : Bool → String → Stamp → Desk → Desk
run_now is_run_enabled problem_id stamp d =
    on_workspace (λ s. (handle_run is_run_enabled problem_id d.contest stamp s).0) d

abbrev ended : Text → Stamp → SubmitOutcome → Option SubmitCall → Desk → Desk
ended now stamp outcome none d = d
ended now stamp outcome (some call) d =
    let (feed, r) = submit_end now call.problem_id call.previous_best outcome d.feed in
    record d { workspace = end_submit stamp call r d.workspace; feed = feed; pending = none }

unfoldable pub submit_over : Text → Stamp → SubmitOutcome → Desk → Desk
submit_over now stamp outcome d = ended now stamp outcome d.pending d

abbrev pub by_shortcut : Bool → String → Stamp → Option Shortcut → Desk → Desk
by_shortcut is_run_enabled problem_id stamp none d = d
by_shortcut is_run_enabled problem_id stamp (some to_submit) d = submit_now problem_id d
by_shortcut is_run_enabled problem_id stamp (some to_run) d =
    run_now is_run_enabled problem_id stamp d
by_shortcut is_run_enabled problem_id stamp (some to_save) d = on_workspace (save_code stamp) d

module _ (is_run_enabled : Bool) (problem_id : String) where
  abbrev pub handle : Event → Desk → Desk
  handle (draft_loads stored) d = on_workspace (load_draft stored) d
  handle (code_changes next) d = on_workspace (handle_code_change next) d
  handle (stdin_changes next) d = on_workspace (change_stdin next) d
  handle (language_changes stamp id) d = on_workspace (handle_language_change stamp id) d
  handle (key_typed e) d = on_workspace (editor_key_down e) d
  handle (text_pasted len) d = on_workspace (handle_paste len) d
  handle (shortcut_pressed stamp e) d =
      by_shortcut is_run_enabled problem_id stamp (shortcut_of is_run_enabled e) d
  handle (autosave_due stamp) d = on_workspace (save_code stamp) d
  handle (run_pressed stamp) d = run_now is_run_enabled problem_id stamp d
  handle (run_ends result) d = on_workspace (end_run result) d
  handle submit_pressed d = submit_now problem_id d
  handle (submit_ends now stamp outcome) d = submit_over now stamp outcome d
  handle (result_shown stamp) d =
      on_workspace (result_effect stamp (active_result problem_id d.feed d.workspace)) d
  handle run_ticks d = on_workspace tick_run d
  handle submit_ticks d = on_workspace tick_submit d
  handle (restored snapshot) d = on_workspace (handle_restore snapshot) d
  handle (submissions_listed now is_cancelled subs) d =
      on_workspace (list_submissions now is_cancelled subs) d
  handle (feed_turns feed) d = record d { feed = feed }
  handle (contest_turns contest) d = record d { contest = contest }

  -- The events in the order in which they happen.
  abbrev pub run : List Event → Desk → Desk
  run [] d = d
  run (event ∷ events) d = run events (handle event d)

abbrev telemetry_of : Option EditorTelemetry → SubmissionTelemetry
telemetry_of none = record {
  typed_count = none;
  paste_count = none;
  pasted_chars = none;
  max_paste_size = none;
}
telemetry_of (some t) = record {
  typed_count = some t.typed_count;
  paste_count = some t.paste_count;
  pasted_chars = some t.pasted_chars;
  max_paste_size = some t.max_paste_size;
}

-- What `submitFast` calls `submitCode` with; the nonce is the proctor's.
abbrev pub submit_input : Option Text → SubmitCall → SubmitInput
submit_input attest_nonce call = record {
  problem_id = codes call.problem_id;
  code = call.code;
  previous_best = call.previous_best;
  language = call.language;
  attest_nonce = attest_nonce;
  telemetry = telemetry_of call.telemetry;
}

-- The desk when the page is opened.
abbrev pub opened : Workspace → FeedState → Contest → Desk
opened s feed contest = record {
  workspace = s;
  feed = feed;
  contest = contest;
  pending = none;
  calls = [];
}

-- The seconds that the countdown of submissions has ticked.
abbrev pub tick_of : Event → ℕ
tick_of submit_ticks = 1
tick_of _ = 0

abbrev pub ticks_in : List Event → ℕ
ticks_in [] = 0
ticks_in (event ∷ events) = tick_of event + ticks_in events
