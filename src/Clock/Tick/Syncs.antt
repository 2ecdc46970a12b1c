-- ===== src/Clock/Tick/Syncs.antt =====
-- How often the ticks at the end of a round ask the backend for its state.
use algo_test.Prelude.{
  ℕ, ◌+◌, ◌<◌, ◌≡◌, refl, ◌∙◌, String, true, List, [], ◌∷◌, ◌==◌, if◌then◌else◌, All, arith, Text,
  some,
}
use algo_test.Clock.Types.{running, ClockState}
use algo_test.Clock.Tick.{present, seconds_between, tick_times, calculate_tick}
use algo_test.Clock.Tick.Times.{IsRunningUntil, calculate_tick-running, tick_alerts-keeps}

module _ (date_time : String → ℕ) (stamp : Text) where
  -- The ticks of the interval, at the given times, with no new state in between.
  unfoldable pub ticks : List ℕ → ClockState → ClockState
  ticks [] s = s
  ticks (now ∷ times) s = ticks times (calculate_tick date_time stamp now s)

  -- One tick when less than a second is left.
  tick_at_end :
      (now : ℕ) (end_time : String) (s : ClockState)
      → IsRunningUntil date_time stamp end_time s
      → date_time end_time < now + 1000
      → let t = calculate_tick date_time stamp now s in
        (t.syncs ≡ (if s.end_refresh_triggered then s.syncs else s.syncs + 1))
        × (t.end_refresh_triggered ≡ true)
        × IsRunningUntil date_time stamp end_time t
  tick_at_end now end_time s on over =
      let timed = tick_times date_time now end_time s in
      let (_, _, asked, fired, same) = tick_alerts-keeps date_time stamp timed in
      let none_left : (seconds_between (date_time end_time) now == 0) ≡ true = ground arith in
      rw (calculate_tick-running date_time stamp now end_time s on, asked, fired, same)
        (unfold tick_times in rw none_left (ground arith, refl, on))

  ticks_triggered :
      (times : List ℕ) (end_time : String) (s : ClockState)
      → IsRunningUntil date_time stamp end_time s
      → All (λ now. date_time end_time < now + 1000) times
      → s.end_refresh_triggered ≡ true
      → (ticks times s).syncs ≡ s.syncs
  unfolding ticks
  ticks_triggered [] end_time s on over h = refl
  ticks_triggered (now ∷ times) end_time s on (over, later) h =
      let (asked, fired, still) = tick_at_end now end_time s on over in
      ticks_triggered times end_time _ still later fired ∙ asked ∙ rw h

  -- However often the clock ticks while less than a second is left of a running round, it asks the
  -- backend for the state of the contest once, unless it has asked already.
  pub ticks-syncs_once :
      (now : ℕ) (times : List ℕ) (end_time : String) (s : ClockState)
      → s.state.status ≡ running
      → present s.state.end_time ≡ some end_time
      → All (λ n. date_time end_time < n + 1000) (now ∷ times)
      → (ticks (now ∷ times) s).syncs ≡ (if s.end_refresh_triggered then s.syncs else s.syncs + 1)
  unfolding ticks
  ticks-syncs_once now times end_time s r e (over, later) =
      let (asked, fired, still) = tick_at_end now end_time s (r, e) over in
      ticks_triggered times end_time _ still later fired ∙ asked
