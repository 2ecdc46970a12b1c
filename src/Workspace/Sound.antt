-- ===== src/Workspace/Sound.antt =====
-- How fast the workspace submits, and what its history keeps meanwhile.
use algo_test.Prelude.{
  ℕ, ◌+◌, ◌*◌, ◌≤◌, ◌≡◌, refl, ap, sym, ◌∙◌, Bool, false, Bool-cases, Option-cases, inl, inr,
  String, List, [], ◌∷◌, Text, arith, length, is_some, if-lem, truthy,
}
use algo_test.History.{Snapshot}
use algo_test.History.Kept.{IsKept, record_snapshot-IsKept}
use algo_test.Feed.Types.{SubmitResult}
use algo_test.Feed.Provider.{FeedState}
use algo_test.Feed.Actions.{SubmitOutcome, submit_end}
use algo_test.Workspace.{Workspace, Contest, Stamp, open_workspace}
use algo_test.Workspace.Sending.{SubmitCall, handle_submit, end_submit, is_submit_disabled}
use algo_test.Workspace.Desk.{
  Desk, Event, opened, submit_now, submit_over, handle, run, tick_of, ticks_in,
}
use algo_test.Workspace.Turn.{Turn, quietly, submits, ends, ticks, handle-Turn}

-- After `n` ticks there are at most `n / 3 + 1` calls, fewer by what the countdown still shows; and
-- under the condition K, the history keeps at most 50 snapshots, one of each submission.
abbrev pub IsSound : Type 0 → ℕ → Desk → Type 0
IsSound K n d =
    (is_some d.pending ≡ d.workspace.submitting)
    × (3 * length d.calls ≤ n + 3)
    × (d.workspace.submitting ≡ false → 3 * length d.calls ≤ n + d.workspace.submit_cooldown)
    × (K → IsKept d.workspace.snapshots)

submit_now-IsSound :
    (K : Type 0) (problem_id : String) (n : ℕ) (d : Desk)
    → IsSound K n d
    → IsSound K n (submit_now problem_id d)
unfolding submit_now handle_submit
submit_now-IsSound K problem_id n d (held, most, rested, kept) =
    elim (Bool-cases (is_submit_disabled problem_id d.contest d.feed d.workspace)) [
      | inl disabled ↦ rw disabled (held, most, rested, kept)
      | inr enabled ↦
          let idle : d.workspace.submitting ≡ false = ground (arith, enabled) in
          let over : d.workspace.submit_cooldown ≡ 0 = ground (arith, enabled) in
          rw enabled (refl, omega (arith, rested idle, over), λ h. absurd (cc h), kept)
    ]

end_submit-submitting :
    (stamp : Stamp) (call : SubmitCall) (r : SubmitResult) (s : Workspace)
    → ((end_submit stamp call r s).submitting ≡ false)
      × ((end_submit stamp call r s).submit_cooldown ≡ 3)
      × (IsKept s.snapshots → IsKept (end_submit stamp call r s).snapshots)
unfolding end_submit
end_submit-submitting stamp call r s =
    if-lem
      (λ (t : Workspace).
        (t.submitting ≡ false)
        × (t.submit_cooldown ≡ 3)
        × (IsKept s.snapshots → IsKept t.snapshots))
      (truthy r.submission_id)
      (
        refl,
        refl,
        λ kept.
            record_snapshot-IsKept stamp.id stamp.now _ call.language call.code _ s.snapshots kept,
      )
      (refl, refl, λ kept. kept)

submit_over-IsSound :
    (K : Type 0) (now : Text) (stamp : Stamp) (outcome : SubmitOutcome) (n : ℕ) (d : Desk)
    → IsSound K n d
    → IsSound K n (submit_over now stamp outcome d)
unfolding submit_over
submit_over-IsSound K now stamp outcome n d (held, most, rested, kept) =
    elim (Option-cases d.pending) [
      | inl idle ↦ rw idle (sym (ap is_some idle) ∙ held, most, rested, kept)
      | inr (call, going) ↦
          let r = (submit_end now call.problem_id call.previous_best outcome d.feed).1 in
          let (free, cooldown, keeps) = end_submit-submitting stamp call r d.workspace in
          rw going (sym free, most, λ h. omega (arith, most, cooldown), λ k. keeps (kept k))
    ]

later-IsSound : (K : Type 0) (n m : ℕ) (d : Desk) → n ≤ m → IsSound K n d → IsSound K m d
later-IsSound K n m d le (held, most, rested, kept) =
    (held, omega (arith, most, le), λ h. omega (arith, rested h, le), kept)

Turn-IsSound :
    (K : Type 0) (problem_id : String) (n : ℕ) {k : ℕ} (d : Desk) {e : Desk}
    → Turn problem_id d k e
    → IsSound K n d
    → IsSound K (n + k) e
Turn-IsSound K problem_id n d (quietly ((idle, same, keeps, more, told), pending, calls))
      (held, most, rested, kept) =
    (
      rw (pending, idle) held,
      rw calls (omega (arith, most)),
      λ h. rw (calls, same) (omega (arith, rested (sym idle ∙ h))),
      λ k. keeps (kept k),
    )
Turn-IsSound K problem_id n d submits sound =
    submit_now-IsSound K problem_id (n + 0) d (later-IsSound K n (n + 0) d (omega arith) sound)
Turn-IsSound K problem_id n d (ends now stamp outcome) sound =
    submit_over-IsSound K now stamp outcome (n + 0) d
      (later-IsSound K n (n + 0) d (omega arith) sound)
Turn-IsSound K problem_id n d ticks (held, most, rested, kept) =
    (held, omega (arith, most), λ h. omega (arith, rested h), kept)

run-IsSound :
    (K : Type 0) (is_run_enabled : Bool) (problem_id : String) (events : List Event) (n : ℕ)
    (d : Desk)
    → IsSound K n d
    → IsSound K (n + ticks_in events) (run is_run_enabled problem_id events d)
run-IsSound K is_run_enabled problem_id [] n d sound =
    later-IsSound K n (n + 0) d (omega arith) sound
run-IsSound K is_run_enabled problem_id (event ∷ events) n d sound =
    let d2 = handle is_run_enabled problem_id event d in
    let turned =
      Turn-IsSound K problem_id n d (handle-Turn is_run_enabled problem_id event d) sound in
    later-IsSound K ((n + tick_of event) + ticks_in events) (n + (tick_of event + ticks_in events))
      (run is_run_enabled problem_id events d2) (omega arith)
      (run-IsSound K is_run_enabled problem_id events (n + tick_of event) d2 turned)

opened-IsSound :
    (is_run_enabled : Bool) (sample : Text) (best : ℕ) (snapshots : List Snapshot)
    (feed : FeedState) (contest : Contest)
    → IsSound
        (IsKept snapshots)
        0
        (opened (open_workspace is_run_enabled sample best snapshots) feed contest)
opened-IsSound is_run_enabled sample best snapshots feed contest =
    (refl, omega arith, λ h. omega arith, λ kept. kept)

-- Whatever the contestant does, by buttons or by keys, and whatever the portal, the contest and the
-- server do meanwhile: from the opening of the page on, the number of calls of `submitFast` is at
-- most a third of the seconds that the countdown has ticked, plus one.
pub length-calls-run-le :
    (is_run_enabled : Bool) (problem_id : String) (sample : Text) (best : ℕ)
    (snapshots : List Snapshot) (feed : FeedState) (contest : Contest) (events : List Event)
    → 3
        * length
            (run is_run_enabled problem_id events
              (opened (open_workspace is_run_enabled sample best snapshots) feed contest)).calls
      ≤ ticks_in events + 3
length-calls-run-le is_run_enabled problem_id sample best snapshots feed contest events =
    let (held, most, rested, keeps) =
      run-IsSound (IsKept snapshots) is_run_enabled problem_id events 0
        (opened (open_workspace is_run_enabled sample best snapshots) feed contest)
        (opened-IsSound is_run_enabled sample best snapshots feed contest) in
    omega (arith, most)

-- When the stored history has at most 50 snapshots and at most one of each submission, that stays so
-- whatever happens in the workspace.
pub run-IsKept :
    (is_run_enabled : Bool) (problem_id : String) (sample : Text) (best : ℕ)
    (snapshots : List Snapshot) (feed : FeedState) (contest : Contest) (events : List Event)
    → IsKept snapshots
    → IsKept
        (run is_run_enabled problem_id events (
          opened
            (open_workspace is_run_enabled sample best snapshots)
            feed
            contest)).workspace.snapshots
run-IsKept is_run_enabled problem_id sample best snapshots feed contest events kept =
    let (held, most, rested, keeps) =
      run-IsSound (IsKept snapshots) is_run_enabled problem_id events 0
        (opened (open_workspace is_run_enabled sample best snapshots) feed contest)
        (opened-IsSound is_run_enabled sample best snapshots feed contest) in
    keeps kept
