-- ===== src/Clock/Tick/Times.antt =====
-- The times that a tick shows, and the flags of the contest.
use algo_test.Prelude.{
  ℕ, ◌+◌, ◌-◌, ◌/◌, ◌≤◌, ◌<◌, ◌≡◌, ◌↔◌, refl, ◌∙◌, String, true, none, some, arith, Bool-cases, inl,
  inr, Text, ap, ltb,
}
use algo_test.Clock.Types.{running, ClockState}
use algo_test.Clock.Tick.{
  present, seconds_between, tick_times, tick_alerts, tick_running, tick_status, calculate_tick,
  is_running, is_ended,
}

module _ (date_time : String → ℕ) (stamp : Text) where
  abbrev pub IsRunningUntil : String → ClockState → Type 0
  IsRunningUntil end_time s =
      (s.state.status ≡ running) × (present s.state.end_time ≡ some end_time)

  pub calculate_tick-running :
      (now : ℕ) (end_time : String) (s : ClockState)
      → IsRunningUntil end_time s
      → calculate_tick date_time stamp now s
        ≡ tick_alerts date_time stamp (tick_times date_time now end_time s)
  unfolding calculate_tick
  calculate_tick-running now end_time s (r, e) =
      ap (λ status. tick_status date_time status stamp now s) r
      ∙ ap (λ o. tick_running date_time o stamp now s) e

  pub tick_alerts-keeps :
      (s : ClockState)
      → ((tick_alerts date_time stamp s).remaining_seconds ≡ s.remaining_seconds)
        × ((tick_alerts date_time stamp s).elapsed_seconds ≡ s.elapsed_seconds)
        × ((tick_alerts date_time stamp s).syncs ≡ s.syncs)
        × ((tick_alerts date_time stamp s).end_refresh_triggered ≡ s.end_refresh_triggered)
        × ((tick_alerts date_time stamp s).state ≡ s.state)
  unfolding tick_alerts
  tick_alerts-keeps s = elim (Bool-cases (ltb 0 s.remaining_seconds)) [
    | inl e ↦ rw e (refl, refl, refl, refl, refl)
    | inr e ↦ rw e (refl, refl, refl, refl, refl)
  ]

  -- In a running round with an end, a tick leaves the round ended exactly when less than a second
  -- is left of it; and until then it is running.
  pub calculate_tick-is_ended_iff :
      (now : ℕ) (end_time : String) (s : ClockState)
      → s.state.status ≡ running
      → present s.state.end_time ≡ some end_time
      → ((is_ended (calculate_tick date_time stamp now s) ≡ true)
          ↔ (date_time end_time < now + 1000))
        × ((is_running (calculate_tick date_time stamp now s) ≡ true)
            ↔ (now + 1000 ≤ date_time end_time))
  unfolding is_ended is_running
  calculate_tick-is_ended_iff now end_time s r e =
      let timed = tick_times date_time now end_time s in
      let (left, _, _, _, same) = tick_alerts-keeps timed in
      let is_on : timed.state.status ≡ running = unfold tick_times in r in
      let seconds : timed.remaining_seconds ≡ seconds_between (date_time end_time) now =
        unfold tick_times in refl in
      rw (calculate_tick-running now end_time s (r, e), left, same, is_on, seconds) (ground arith)

  -- In a running round with a start and an end, at a time between them, the seconds that a tick
  -- shows as elapsed and as remaining make up the length of the round, less one second at most.
  pub calculate_tick-conserves :
      (now : ℕ) (start_time end_time : String) (s : ClockState)
      → s.state.status ≡ running
      → present s.state.start_time ≡ some start_time
      → present s.state.end_time ≡ some end_time
      → date_time start_time ≤ now
      → now ≤ date_time end_time
      → let shown = calculate_tick date_time stamp now s in
        let length = (date_time end_time - date_time start_time) / 1000 in
        (shown.remaining_seconds + shown.elapsed_seconds ≤ length)
        × (length ≤ shown.remaining_seconds + shown.elapsed_seconds + 1)
  calculate_tick-conserves now start_time end_time s r b e after before =
      let timed = tick_times date_time now end_time s in
      let (left, gone, _, _, _) = tick_alerts-keeps timed in
      let seconds : timed.remaining_seconds ≡ seconds_between (date_time end_time) now =
        unfold tick_times in refl in
      let since : timed.elapsed_seconds ≡ seconds_between now (date_time start_time) =
        unfold tick_times in
        ap
          (λ o. elim o as (λ _. ℕ) [
            | none ↦ s.elapsed_seconds
            | some start ↦ seconds_between now (date_time start)
          ])
          b in
      rw (calculate_tick-running now end_time s (r, e), left, gone, seconds, since) (omega arith)
