-- ===== src/Clock/Tick.antt =====
-- `calculateTick`, `checkStatusTransitions` and `refresh` of
-- competitor-frontend/src/components/portal/contest-provider.tsx. Times are milliseconds from the
-- least time value of ECMAScript; `date_time` is `new Date(s).getTime()`, for dates that are valid,
-- and `now` is `Date.now()` corrected by the server's clock.
pub mod Thresholds
pub mod Times
pub mod Syncs
use algo_test.Prelude.{
  ℕ, ◌+◌, ◌-◌, ◌/◌, ◌==◌, Bool, true, false, ◌&&◌, ◌||◌, not, String, Option, none, some, List, [],
  ◌∷◌, ◌++◌, if◌then◌else◌, any, ltb, leb, Text, codes, decimal, filled,
}
use algo_test.Clock.Types.{
  ContestStatus, not_started, running, paused, ended, ContestState, ContestAlert, info, warning,
  destructive, success, Threshold, contest_thresholds, ClockState,
}

abbrev pub is_status : ContestStatus → ContestStatus → Bool
is_status not_started not_started = true
is_status running running = true
is_status paused paused = true
is_status ended ended = true
is_status _ _ = false

abbrev pub has_fired : ℕ → List ℕ → Bool
has_fired n fired = any (λ m. m == n) fired

abbrev pub threshold_alert : Threshold → ContestAlert
threshold_alert t = record {
  id = codes "contest-threshold-" ++ decimal t.seconds;
  title = codes t.label ++ codes " Remaining";
  description =
      if leb t.seconds 300
      then codes "Only "
        ++ (codes t.label ++ codes " left in the round! Ensure your final code is submitted.")
      else codes t.label ++ codes " remaining before submissions close.";
  variant = t.variant;
}

-- The thresholds that have fired, and the alert.
pub record Firing : Type 0 where
  pub fired : List ℕ
  pub toast : Option ContestAlert

-- One round of the loop over the thresholds.
unfoldable pub fire_threshold : ℕ → Threshold → Firing → Firing
fire_threshold remaining t f =
    if leb remaining t.seconds && not (has_fired t.seconds f.fired)
    then record { fired = t.seconds ∷ f.fired; toast = some (threshold_alert t) }
    else f

unfoldable pub fire_thresholds : ℕ → List Threshold → Firing → Firing
fire_thresholds remaining [] f = f
fire_thresholds remaining (t ∷ ts) f = fire_thresholds remaining ts (fire_threshold remaining t f)

abbrev frozen_alert : Text → ContestAlert
frozen_alert stamp = record {
  id = codes "contest-frozen-" ++ stamp;
  title = codes "Scoreboard Frozen";
  description =
      codes "Public standings are now frozen. Your submissions will continue to be evaluated.";
  variant = info;
}

-- `Math.max(0, Math.floor((a - b) / 1000))`; subtraction stops at 0 as that does.
abbrev pub seconds_between : ℕ → ℕ → ℕ
seconds_between a b = (a - b) / 1000

-- A time counts as absent when its text is empty.
abbrev pub present : Option String → Option String
present none = none
present (some s) = if filled s then some s else none

module _ (date_time : String → ℕ) where
  -- The case RUNNING with an end time, up to the alerts.
  unfoldable pub tick_times : ℕ → String → ClockState → ClockState
  tick_times now end_time s =
      let remaining = seconds_between (date_time end_time) now in
      record s {
        starts_in_seconds = 0;
        remaining_seconds = remaining;
        syncs = if remaining == 0 && not s.end_refresh_triggered then s.syncs + 1 else s.syncs;
        end_refresh_triggered = remaining == 0;
        elapsed_seconds = elim (present s.state.start_time) [
          | none ↦ s.elapsed_seconds
          | some start ↦ seconds_between now (date_time start)
        ];
      }

  -- The case RUNNING with an end time, from the frozen flag on.
  unfoldable pub tick_alerts : Text → ClockState → ClockState
  tick_alerts stamp s =
      let frozen = s.state.is_frozen in
      let alert =
        if not s.previous_frozen && frozen then some (frozen_alert stamp) else s.alert_toast in
      let shown = record s { is_frozen = frozen; previous_frozen = frozen; alert_toast = alert } in
      let after =
        fire_thresholds s.remaining_seconds contest_thresholds
          (record { fired = s.fired_thresholds; toast = alert }) in
      if ltb 0 s.remaining_seconds
      then record shown { fired_thresholds = after.fired; alert_toast = after.toast }
      else shown

  -- The case RUNNING, with the end time, if there is one.
  abbrev pub tick_running : Option String → Text → ℕ → ClockState → ClockState
  tick_running (some end_time) stamp now s = tick_alerts stamp (tick_times now end_time s)
  tick_running none stamp now s = record s {
    starts_in_seconds = 0;
    remaining_seconds = s.state.duration_seconds;
    elapsed_seconds = 0;
    is_frozen = false;
  }

  abbrev pub tick_status : ContestStatus → Text → ℕ → ClockState → ClockState
  tick_status not_started stamp now s = record s {
    remaining_seconds = s.state.duration_seconds;
    elapsed_seconds = 0;
    is_frozen = false;
    starts_in_seconds = elim (present s.state.start_time) [
      | none ↦ 0
      | some start ↦ seconds_between (date_time start) now
    ];
  }
  tick_status running stamp now s = tick_running (present s.state.end_time) stamp now s
  tick_status paused stamp now s = record s {
    starts_in_seconds = 0;
    remaining_seconds = s.state.remaining_seconds;
    elapsed_seconds = s.state.elapsed_seconds;
    is_frozen = s.state.is_frozen;
  }
  tick_status ended stamp now s = record s {
    starts_in_seconds = 0;
    remaining_seconds = 0;
    elapsed_seconds = s.state.duration_seconds;
    is_frozen = false;
  }

  unfoldable pub calculate_tick : Text → ℕ → ClockState → ClockState
  calculate_tick stamp now s = tick_status s.state.status stamp now s

-- The alert of a change of status, if it has one.
unfoldable pub transition_alert : Text → ContestStatus → ContestStatus → Option ContestAlert
transition_alert stamp not_started running = some (record {
  id = codes "contest-started-" ++ stamp;
  title = codes "Contest Started!";
  description = codes "The round is now live. Problem statements and submissions are unlocked.";
  variant = success;
})
transition_alert stamp _ paused = some (record {
  id = codes "contest-paused-" ++ stamp;
  title = codes "Contest Paused";
  description = codes "Judges have paused the contest clock. Code execution is on hold.";
  variant = warning;
})
transition_alert stamp paused running = some (record {
  id = codes "contest-resumed-" ++ stamp;
  title = codes "Contest Resumed";
  description = codes "The competition round is active again. You may continue working.";
  variant = info;
})
transition_alert stamp _ ended = some (record {
  id = codes "contest-ended-" ++ stamp;
  title = codes "Contest Concluded";
  description =
      codes "The round has ended. Submissions are closed and workspace is in practice mode.";
  variant = info;
})
transition_alert stamp _ _ = none

unfoldable pub check_status_transitions :
    Text → ContestStatus → ContestStatus → ClockState → ClockState
unfolding transition_alert
check_status_transitions stamp previous current s =
    if is_status previous current then s else record s {
      alert_toast = elim (transition_alert stamp previous current) [
        | none ↦ s.alert_toast
        | some alert ↦ some alert
      ];
      page_refreshes = s.page_refreshes + 1;
    }

-- `refresh` when the backend answers with a state; a failure is only logged.
unfoldable pub receive_state : Text → ContestState → ClockState → ClockState
unfolding check_status_transitions
receive_state stamp next s =
    check_status_transitions stamp s.state.status next.status (record s { state = next })

-- The flags of the context's value.
unfoldable pub is_running : ClockState → Bool
is_running s = is_status s.state.status running && ltb 0 s.remaining_seconds

unfoldable pub is_ended : ClockState → Bool
is_ended s =
    is_status s.state.status ended || (is_status s.state.status running && s.remaining_seconds == 0)

unfoldable pub is_critical : ClockState → Bool
is_critical s =
    is_status s.state.status running && ltb 0 s.remaining_seconds && leb s.remaining_seconds 300

unfoldable pub is_warning : ClockState → Bool
is_warning s =
    is_status s.state.status running
    && ltb 0 s.remaining_seconds
    && leb s.remaining_seconds 900
    && ltb 300 s.remaining_seconds
