-- ===== src/Timer/Sounds.antt =====
-- Each warning is heard at most once in a countdown.
use algo_test.Prelude.{
  ℕ, suc, ◌+◌, ◌≤◌, ◌<◌, ◌≡◌, ◌≢◌, refl, ap, ◌∙◌, Bool, true, false, String, some, List, [], ◌∷◌,
  if◌then◌else◌, Bool-cases, inl, inr, arith, ltb, leb, ◌&&◌, ◌==◌,
}
use algo_test.Clock.Types.{running}
use algo_test.Clock.Tick.{present, is_status}
use algo_test.Timer.{
  TimerState, Sound, start_sound, five_min, one_min, end_sound, tick, tick_sounds,
  AdminContestState, running_shown, shown_of_status, shown_of, play,
}

abbrev is_sound : Sound → Sound → Bool
is_sound start_sound start_sound = true
is_sound five_min five_min = true
is_sound one_min one_min = true
is_sound end_sound end_sound = true
is_sound _ _ = false

-- How often a sound has been played.
unfoldable pub count_of : Sound → List Sound → ℕ
count_of which [] = 0
count_of which (s ∷ played) =
    if is_sound which s then suc (count_of which played) else count_of which played

count_of-play :
    (which sound : Sound) (test : Bool) (played : List Sound)
    → count_of which (play test sound played)
      ≡ count_of which played + (if test && is_sound which sound then 1 else 0)
unfolding count_of
count_of-play which sound false played = omega arith
count_of-play which sound true [] = ground arith
count_of-play which sound true (s ∷ played) = ground (arith, count_of-play which sound true played)

-- The seconds from which on a sound has been heard.
abbrev pub heard_at : Sound → ℕ
heard_at five_min = 300
heard_at one_min = 60
heard_at _ = 0

-- A sound has been heard once at most, and if so, its time has come.
abbrev IsHeardOnce : ℕ → List Sound → Sound → Type 0
IsHeardOnce prev played which =
    (count_of which played ≤ 1) × (0 < count_of which played → prev ≤ heard_at which)

-- Whether the tick plays the sound.
abbrev due_of : Sound → Bool → Bool → Bool → Bool
due_of start_sound a b c = false
due_of five_min a b c = a
due_of one_min a b c = b
due_of end_sound a b c = c

abbrev is_due : Sound → ℕ → ℕ → Bool
is_due which prev remaining =
    due_of which (ltb 300 prev && (leb remaining 300 && ltb 295 remaining))
      (ltb 60 prev && (leb remaining 60 && ltb 55 remaining)) (ltb 0 prev && remaining == 0)

abbrev one_if : Bool → ℕ
one_if test = if test then 1 else 0

one_if-due_of :
    (n : ℕ) (w : Sound) (a b c : Bool)
    → n
        + one_if (a && is_sound w five_min)
        + one_if (b && is_sound w one_min)
        + one_if (c && is_sound w end_sound)
      ≡ n + one_if (due_of w a b c)
one_if-due_of n start_sound a b c = ground arith
one_if-due_of n five_min a b c = ground arith
one_if-due_of n one_min a b c = ground arith
one_if-due_of n end_sound a b c = ground arith

count_of-tick_sounds :
    (prev remaining : ℕ) (played : List Sound) (which : Sound)
    → count_of which (tick_sounds prev remaining played)
      ≡ count_of which played + one_if (is_due which prev remaining)
unfolding tick_sounds
count_of-tick_sounds prev remaining played which =
    let five = is_due five_min prev remaining in
    let one = is_due one_min prev remaining in
    let last = is_due end_sound prev remaining in
    count_of-play which end_sound last (play one one_min (play five five_min played))
    ∙ ap (λ (n : ℕ). n + one_if (last && is_sound which end_sound))
        (count_of-play which one_min one (play five five_min played)
          ∙ ap (λ (n : ℕ). n + one_if (one && is_sound which one_min))
              (count_of-play which five_min five played))
    ∙ one_if-due_of (count_of which played) which five one last

-- A sound that has been heard is heard no more, as the remaining seconds fall.
tick_sounds-IsHeardOnce :
    (prev remaining : ℕ) (played : List Sound) (which : Sound)
    → which ≢ start_sound
    → (0 < count_of which played → remaining ≤ prev)
    → IsHeardOnce prev played which
    → IsHeardOnce remaining (tick_sounds prev remaining played) which
tick_sounds-IsHeardOnce prev remaining played start_sound h le k = absurd (h refl)
tick_sounds-IsHeardOnce prev remaining played five_min h le (once, past) =
    ground (arith, count_of-tick_sounds prev remaining played five_min, past, le)
tick_sounds-IsHeardOnce prev remaining played one_min h le (once, past) =
    ground (arith, count_of-tick_sounds prev remaining played one_min, past, le)
tick_sounds-IsHeardOnce prev remaining played end_sound h le (once, past) =
    ground (arith, count_of-tick_sounds prev remaining played end_sound, past, le)

-- Times that do not go back.
abbrev pub AreOrdered : ℕ → List ℕ → Type 0
AreOrdered now [] = Unit
AreOrdered now (n ∷ times) = (now ≤ n) × AreOrdered n times

module _ (date_time : String → ℕ) where
  -- The ticks of the interval at the given times, with no new state in between.
  unfoldable pub ticks : List ℕ → TimerState → TimerState
  ticks [] s = s
  ticks (now ∷ times) s = ticks times (tick date_time now s)

  shown_of-running :
      (start end : String) (now : ℕ) (c : AdminContestState)
      → c.status ≡ running
      → present c.start_time ≡ some start
      → present c.end_time ≡ some end
      → shown_of date_time now c ≡ running_shown date_time (some start) (some end) now c
  unfolding shown_of
  shown_of-running start end now c r from to =
      ap (λ status. shown_of_status date_time status now c) r
      ∙ ap (λ o. running_shown date_time o (present c.end_time) now c) from
      ∙ ap (λ o. running_shown date_time (some start) o now c) to

  shown_of-falls :
      (start end : String) (now later : ℕ) (c : AdminContestState)
      → c.status ≡ running
      → present c.start_time ≡ some start
      → present c.end_time ≡ some end
      → now ≤ later
      → (shown_of date_time later c).remaining ≤ (shown_of date_time now c).remaining
  shown_of-falls start end now later c r from to le =
      rw (shown_of-running start end now c r from to, shown_of-running start end later c r from to)
        (ground arith)

  tick-IsHeardOnce :
      (which : Sound) (now : ℕ) (s : TimerState)
      → which ≢ start_sound
      → (0 < count_of which s.played
          → (shown_of date_time now s.state).remaining ≤ s.previous_remaining)
      → IsHeardOnce s.previous_remaining s.played which
      → IsHeardOnce (tick date_time now s).previous_remaining (tick date_time now s).played which
  unfolding tick
  tick-IsHeardOnce which now s h le (once, past) =
      elim (Bool-cases (s.is_audio_enabled && is_status s.state.status running)) [
        | inl on ↦ rw on (
            tick_sounds-IsHeardOnce s.previous_remaining (shown_of date_time now s.state).remaining
              s.played which h le (once, past))
        | inr off ↦ rw off (once, λ heard. omega (arith, le heard, past heard))
      ]

  ticks-IsHeardOnce :
      (start end : String) (which : Sound) (now : ℕ) (times : List ℕ) (s : TimerState)
      → which ≢ start_sound
      → s.state.status ≡ running
      → present s.state.start_time ≡ some start
      → present s.state.end_time ≡ some end
      → AreOrdered now times
      → s.previous_remaining ≡ (shown_of date_time now s.state).remaining
      → IsHeardOnce s.previous_remaining s.played which
      → count_of which (ticks times s).played ≤ 1
  unfolding ticks tick
  ticks-IsHeardOnce start end which now [] s h r from to o at k = k.0
  ticks-IsHeardOnce start end which now (n ∷ times) s h r from to (le, o) at k =
      ticks-IsHeardOnce start end which n times (tick date_time n s) h r from to o refl (
        tick-IsHeardOnce which n s h
          (λ heard. omega (arith, at, shown_of-falls start end now n s.state r from to le)) k)

  -- Over the ticks of a countdown, at times that do not go back and with no new state of the
  -- contest, the warning at five minutes, the one at one minute and the buzzer are each heard at
  -- most once more, wherever none of it was heard before.
  pub ticks-heard_once :
      (start end : String) (which : Sound) (now : ℕ) (times : List ℕ) (s : TimerState)
      → which ≢ start_sound
      → s.state.status ≡ running
      → present s.state.start_time ≡ some start
      → present s.state.end_time ≡ some end
      → AreOrdered now times
      → count_of which s.played ≡ 0
      → count_of which (ticks (now ∷ times) s).played ≤ 1
  unfolding ticks tick
  ticks-heard_once start end which now times s h r from to o silent =
      ticks-IsHeardOnce start end which now times (tick date_time now s) h r from to o refl (
        tick-IsHeardOnce which now s h (λ heard. absurd (omega arith))
          (omega arith, λ heard. absurd (omega arith)))
