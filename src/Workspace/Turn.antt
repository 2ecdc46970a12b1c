-- ===== src/Workspace/Turn.antt =====
-- The ways in which an event turns the desk.
use algo_test.Prelude.{
  ℕ, ◌≡◌, refl, Bool, ◌||◌, String, Option, none, some, List, Text, arith, if-lem,
}
use algo_test.History.Kept.{IsKept}
use algo_test.History.Merge.{sync_submissions, is_empty}
use algo_test.History.Merge.Ordered.{merged-IsKept}
use algo_test.Feed.Types.{SubmissionItem}
use algo_test.Feed.Actions.{SubmitOutcome}
use algo_test.Workspace.{Workspace, Stamp}
use algo_test.Workspace.Sending.{tick_submit}
use algo_test.Workspace.Keys.{Shortcut, to_submit, to_run, to_save, shortcut_of}
use algo_test.Workspace.Desk.{
  Desk, Event, draft_loads, code_changes, stdin_changes, language_changes, key_typed, text_pasted,
  shortcut_pressed, autosave_due, run_pressed, run_ends, submit_pressed, submit_ends, result_shown,
  run_ticks, submit_ticks, restored, submissions_listed, list_submissions, feed_turns,
  contest_turns, submit_now, submit_over, by_shortcut, handle, tick_of,
}
use algo_test.Workspace.Quiet.{
  IsQuiet, same-IsQuiet, load_draft-IsQuiet, save_code-IsQuiet, handle_language_change-IsQuiet,
  handle_run-IsQuiet, end_run-IsQuiet, result_effect-IsQuiet, handle_restore-IsQuiet,
  editor_key_down-IsQuiet, handle_paste-IsQuiet,
}

abbrev pub IsQuietDesk : Desk → Desk → Type 0
IsQuietDesk d e = IsQuiet d.workspace e.workspace × (e.pending ≡ d.pending) × (e.calls ≡ d.calls)

list_submissions-IsQuiet :
    (now : ℕ) (is_cancelled : Bool) (subs : List SubmissionItem) (s : Workspace)
    → IsQuiet s (list_submissions now is_cancelled subs s)
unfolding sync_submissions
list_submissions-IsQuiet now is_cancelled subs s = (
  refl,
  refl,
  λ kept.
      if-lem IsKept (is_cancelled || is_empty subs) kept (merged-IsKept now s.snapshots subs kept),
  omega arith,
  λ told. told,
)

-- The ways in which an event turns the desk, with the ticks that it counts.
pub data Turn (problem_id : String) (d : Desk) : ℕ → Desk → Type 0 where
  quietly : {e : Desk} → IsQuietDesk d e → Turn problem_id d 0 e
  submits : Turn problem_id d 0 (submit_now problem_id d)
  ends :
      (now : Text) (stamp : Stamp) (outcome : SubmitOutcome)
      → Turn problem_id d 0 (submit_over now stamp outcome d)
  ticks : Turn problem_id d 1 (record d { workspace = tick_submit d.workspace })

module _ (is_run_enabled : Bool) (problem_id : String) where
  of_quiet :
      (d : Desk) {s : Workspace}
      → IsQuiet d.workspace s
      → Turn problem_id d 0 (record d { workspace = s })
  of_quiet d quiet = quietly (quiet, refl, refl)

  by_shortcut-Turn :
      (stamp : Stamp) (shortcut : Option Shortcut) (d : Desk)
      → Turn problem_id d 0 (by_shortcut is_run_enabled problem_id stamp shortcut d)
  by_shortcut-Turn stamp none d = of_quiet d (same-IsQuiet d.workspace)
  by_shortcut-Turn stamp (some to_submit) d = submits
  by_shortcut-Turn stamp (some to_run) d =
      of_quiet d (handle_run-IsQuiet is_run_enabled problem_id d.contest stamp d.workspace)
  by_shortcut-Turn stamp (some to_save) d = of_quiet d (save_code-IsQuiet stamp d.workspace)

  pub handle-Turn :
      (event : Event) (d : Desk)
      → Turn problem_id d (tick_of event) (handle is_run_enabled problem_id event d)
  handle-Turn (draft_loads stored) d = of_quiet d (load_draft-IsQuiet stored d.workspace)
  handle-Turn (code_changes next) d = of_quiet d (same-IsQuiet d.workspace)
  handle-Turn (stdin_changes next) d = of_quiet d (same-IsQuiet d.workspace)
  handle-Turn (language_changes stamp id) d =
      of_quiet d (handle_language_change-IsQuiet stamp id d.workspace)
  handle-Turn (key_typed e) d = of_quiet d (editor_key_down-IsQuiet e d.workspace)
  handle-Turn (text_pasted len) d = of_quiet d (handle_paste-IsQuiet len d.workspace)
  handle-Turn (shortcut_pressed stamp e) d = by_shortcut-Turn stamp (shortcut_of is_run_enabled e) d
  handle-Turn (autosave_due stamp) d = of_quiet d (save_code-IsQuiet stamp d.workspace)
  handle-Turn (run_pressed stamp) d =
      of_quiet d (handle_run-IsQuiet is_run_enabled problem_id d.contest stamp d.workspace)
  handle-Turn (run_ends result) d = of_quiet d (end_run-IsQuiet result d.workspace)
  handle-Turn submit_pressed d = submits
  handle-Turn (submit_ends now stamp outcome) d = ends now stamp outcome
  handle-Turn (result_shown stamp) d = of_quiet d (result_effect-IsQuiet stamp _ d.workspace)
  handle-Turn run_ticks d = of_quiet d (same-IsQuiet d.workspace)
  handle-Turn submit_ticks d = ticks
  handle-Turn (restored snapshot) d = of_quiet d (handle_restore-IsQuiet snapshot d.workspace)
  handle-Turn (submissions_listed now is_cancelled subs) d =
      of_quiet d (list_submissions-IsQuiet now is_cancelled subs d.workspace)
  handle-Turn (feed_turns feed) d = quietly (same-IsQuiet d.workspace, refl, refl)
  handle-Turn (contest_turns contest) d = quietly (same-IsQuiet d.workspace, refl, refl)
