-- ===== src/Timer/Agreement.antt =====
-- The organizers' timer and the contestants' clock, on one state of the contest.
use algo_test.Prelude.{
  ℕ, ◌<◌, ◌≡◌, ◌⊎◌, ◌≢◌, refl, ap, subst, sym, ◌∙◌, String, none, some, Text, arith, inl, inr,
}
use algo_test.Clock.Types.{
  ContestStatus, ContestState, ClockState, not_started, running, paused, ended,
}
use algo_test.Clock.Tick.{present, seconds_between, calculate_tick, tick_times, tick_status}
use algo_test.Clock.Tick.Times.{tick_alerts-keeps}
use algo_test.Timer.{AdminContestState, shown_of, shown_of_status}

-- Both have the same answer of the backend, as far as the times go.
pub record AreSame (c : ContestState) (a : AdminContestState) : Type 0 where
  pub status : c.status ≡ a.status
  pub start_time : present c.start_time ≡ present a.start_time
  pub end_time : present c.end_time ≡ present a.end_time
  pub duration : c.duration_seconds ≡ a.duration_seconds
  pub remaining : c.remaining_seconds ≡ a.remaining_seconds
  pub elapsed : c.elapsed_seconds ≡ a.elapsed_seconds

module _ (date_time : String → ℕ) (stamp : Text) where
  -- What the contestants' page shows in a running round with a start and an end.
  running_ticks :
      (start end : String) (now : ℕ) (s : ClockState)
      → present s.state.start_time ≡ some start
      → present s.state.end_time ≡ some end
      → ((tick_status date_time running stamp now s).remaining_seconds
          ≡ seconds_between (date_time end) now)
        × ((tick_status date_time running stamp now s).elapsed_seconds
            ≡ seconds_between now (date_time start))
  running_ticks start end now s from to =
      let timed = tick_times date_time now end s in
      let (left, gone, _, _, _) = tick_alerts-keeps date_time stamp timed in
      let passed : timed.elapsed_seconds ≡ seconds_between now (date_time start) =
        unfold tick_times in
        ap (λ o. elim o [ none ↦ s.elapsed_seconds | some b ↦ seconds_between now (date_time b) ])
          from in
      let remains : timed.remaining_seconds ≡ seconds_between (date_time end) now =
        unfold tick_times in refl in
      rw to (left ∙ remains, gone ∙ passed)

  status_agrees :
      (status : ContestStatus) (start end : String) (now : ℕ) (s : ClockState)
      (a : AdminContestState)
      → present a.start_time ≡ some start
      → present a.end_time ≡ some end
      → AreSame s.state a
      → ((tick_status date_time status stamp now s).remaining_seconds
          ≡ (shown_of_status date_time status now a).remaining)
        × ((now < date_time end) ⊎ (status ≢ running)
            → (tick_status date_time status stamp now s).elapsed_seconds
              ≡ (shown_of_status date_time status now a).elapsed)
  status_agrees not_started start end now s a from to same = (same.duration, λ h. refl)
  status_agrees running start end now s a from to same =
      let (left, gone) =
        running_ticks start end now s (same.start_time ∙ from) (same.end_time ∙ to) in
      rw (left, gone, from, to)
        (ground arith, λ h. elim h [ inl early ↦ ground arith | inr other ↦ absurd (other refl) ])
  status_agrees paused start end now s a from to same = (same.remaining, λ h. same.elapsed)
  status_agrees ended start end now s a from to same = (refl, λ h. same.duration)

  -- For one answer of the backend, with a start and an end, and at one time, the organizers' timer
  -- and the contestants' clock show the same remaining seconds, whatever the status; and the same
  -- elapsed seconds, except in a running round from its end on.
  pub calculate_tick-eq-shown_of :
      (start end : String) (now : ℕ) (s : ClockState) (a : AdminContestState)
      → present a.start_time ≡ some start
      → present a.end_time ≡ some end
      → AreSame s.state a
      → ((calculate_tick date_time stamp now s).remaining_seconds
          ≡ (shown_of date_time now a).remaining)
        × ((now < date_time end) ⊎ (a.status ≢ running)
            → (calculate_tick date_time stamp now s).elapsed_seconds
              ≡ (shown_of date_time now a).elapsed)
  unfolding calculate_tick shown_of
  calculate_tick-eq-shown_of start end now s a from to same =
      subst
        (λ status.
          ((tick_status date_time status stamp now s).remaining_seconds
            ≡ (shown_of_status date_time a.status now a).remaining)
          × ((now < date_time end) ⊎ (a.status ≢ running)
              → (tick_status date_time status stamp now s).elapsed_seconds
                ≡ (shown_of_status date_time a.status now a).elapsed))
        (sym same.status) (status_agrees a.status start end now s a from to same)
