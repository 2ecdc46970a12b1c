-- ===== src/Tests/DeskRuns.antt =====
-- A contestant at the workspace, and the merged history.
use algo_test.Prelude.{
  ℕ, ◌+◌, ◌*◌, ◌≤◌, refl, false, true, none, some, List, [], ◌∷◌, arith, codes, All, length, String,
}
use algo_test.Feed.Session.{opened as opened_feed}
use algo_test.Feed.Actions.{thrown}
use algo_test.Feed.Backend.{Reply, SubmitData, SubmitRequest, refused}
use algo_test.History.Kept.{IsKept}
use algo_test.History.Merge.{merge_server_submissions}
use algo_test.History.Merge.Ordered.{IsLatestFirst, merge_server_submissions-IsKept}
use algo_test.Workspace.{Contest, Stamp, EditorTelemetry, open_workspace}
use algo_test.Workspace.Desk.{
  Desk, Event, code_changes, submit_pressed, submit_ends, submit_ticks, submissions_listed,
  run_pressed, run, opened, ticks_in,
}
use algo_test.Workspace.Sound.{length-calls-run-le, run-IsKept}
use algo_test.Workspace.Refused.{IsRefused, calls-run-AreRefused}
use algo_test.Tests.Data.{listed}
use algo_test.Tests.HistoryRuns.{snapshots, snapshots-IsKept}

abbrev contest : Contest
contest = record { is_not_started = false; is_paused = false; is_ended = false }

abbrev stamp : Stamp
stamp = record { id = codes "b"; now = 20 }

-- Two submissions, and a third that comes too early.
abbrev events : List Event
events =
    code_changes (codes "int main() {}")
    ∷ run_pressed stamp
    ∷ submit_pressed
    ∷ submit_ends (codes "20") stamp (thrown "offline")
    ∷ submissions_listed 30 false (listed ∷ [])
    ∷ submit_ticks
    ∷ submit_ticks
    ∷ submit_ticks
    ∷ submit_pressed
    ∷ submit_ends (codes "24") stamp (thrown "offline")
    ∷ submit_pressed
    ∷ []

length-calls-run-le_example :
    3
      * length
          (run true "p1" events
            (opened (open_workspace true (codes "1 2") 0 snapshots) opened_feed contest)).calls
    ≤ ticks_in events + 3
length-calls-run-le_example =
    length-calls-run-le true "p1" (codes "1 2") 0 snapshots opened_feed contest events

run-IsKept_example :
    IsKept
      (run true "p1" events (
        opened
          (open_workspace true (codes "1 2") 0 snapshots)
          opened_feed
          contest)).workspace.snapshots
run-IsKept_example =
    run-IsKept true "p1" (codes "1 2") 0 snapshots opened_feed contest events snapshots-IsKept

merge_server_submissions-IsKept_example :
    IsKept (merge_server_submissions 30 snapshots (listed ∷ listed ∷ []))
    × IsLatestFirst (merge_server_submissions 30 snapshots (listed ∷ listed ∷ []))
merge_server_submissions-IsKept_example =
    merge_server_submissions-IsKept 30 snapshots (listed ∷ listed ∷ []) snapshots-IsKept (tt, tt)

abbrev pasted : EditorTelemetry
pasted = record {
  typed_count = 10;
  paste_count = 30;
  pasted_chars = 1000001;
  max_paste_size = 90000;
}

abbrev long_used : Desk
long_used =
    opened
      (record (open_workspace true (codes "1 2") 0 snapshots) {
        telemetry = pasted;
        editor_telemetry = some pasted;
      })
      opened_feed contest

abbrev too_big : ℕ → String
too_big bound = "Too big"

abbrev no_answer : SubmitRequest → Reply SubmitData
no_answer request = refused 500 (record { error = none; code = none; seconds_since_ping = none })

calls-run-AreRefused_example :
    All
      (IsRefused too_big no_answer none)
      (run true "p1" events (record long_used { calls = [] })).calls
calls-run-AreRefused_example =
    calls-run-AreRefused too_big no_answer none true "p1" events long_used refl (omega arith)
