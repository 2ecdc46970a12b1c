-- ===== src/Timer.antt =====
-- The organizers' timer, admin-frontend/src/components/timer/contest-timer-client.tsx. Times are
-- milliseconds from the least time value of ECMAScript, `date_time` is `new Date(s).getTime()` for
-- dates that are valid, and `now` is `Date.now()` corrected by the server's clock.
pub mod Agreement
pub mod Sounds
pub mod Contest
pub mod Settings
use algo_test.Prelude.{
  ℕ, ◌+◌, ◌-◌, ◌/◌, ◌==◌, Bool, true, false, ◌&&◌, ◌||◌, not, String, Option, none, some, List, [],
  ◌∷◌, ◌++◌, if◌then◌else◌, ltb, leb, or_else, filled, str_eq, get_or_else, Text,
}
use algo_test.Clock.Types.{ContestStatus, not_started, running, paused, ended}
use algo_test.Clock.Tick.{is_status, present, seconds_between}

-- admin-frontend/src/types/contest.ts
pub record AdminContestState : Type 0 where
  pub title : String
  pub status : ContestStatus
  pub start_time : Option String
  pub end_time : Option String
  pub duration_seconds : ℕ
  pub freeze_minutes : ℕ
  pub paused_at : Option String
  pub remaining_seconds : ℕ
  pub elapsed_seconds : ℕ
  pub is_frozen : Bool
  pub require_fullscreen : Option Bool
  pub min_client_version : Option String
  pub enforce_binary_hash : Option Bool
  pub authorized_binary_hashes : Option String
  pub download_enabled : Option Bool
  pub server_time : String

pub data Sound : Type 0 where
  start_sound five_min one_min end_sound : Sound

-- The states and refs of `ContestTimerClient` that the handlers below change, and the sounds that
-- have been played, in order.
pub record TimerState : Type 0 where
  pub state : AdminContestState
  pub remaining_seconds : ℕ
  pub elapsed_seconds : ℕ
  pub previous_remaining : ℕ
  pub is_loading : Bool
  pub is_fullscreen : Bool
  pub is_clean_mode : Bool
  pub is_audio_enabled : Bool
  pub end_confirm_open : Bool
  pub reset_confirm_open : Bool
  pub settings_open : Bool
  pub settings_title : String
  pub settings_duration : Text
  pub settings_freeze : Text
  pub settings_fullscreen : Bool
  pub settings_min_version : String
  pub settings_enforce_hash : Bool
  pub settings_authorized_hashes : String
  pub played : List Sound

-- The remaining and the elapsed seconds that a tick shows.
pub record Shown : Type 0 where
  pub remaining : ℕ
  pub elapsed : ℕ

-- `x || fallback` for a text.
abbrev pub text_or : Option String → String → String
text_or o fallback = get_or_else (present o) fallback

abbrev pub play : Bool → Sound → List Sound → List Sound
play test sound played = if test then played ++ sound ∷ [] else played

-- The sounds of a tick, for the remaining seconds before and after it.
unfoldable pub tick_sounds : ℕ → ℕ → List Sound → List Sound
tick_sounds prev remaining played =
    let warned_five =
      play (ltb 300 prev && (leb remaining 300 && ltb 295 remaining)) five_min played in
    let warned_one =
      play (ltb 60 prev && (leb remaining 60 && ltb 55 remaining)) one_min warned_five in
    play (ltb 0 prev && remaining == 0) end_sound warned_one

module _ (date_time : String → ℕ) where
  -- The case RUNNING.
  abbrev pub running_shown : Option String → Option String → ℕ → AdminContestState → Shown
  running_shown (some start) (some end) now c =
      if leb (date_time end) now
      then record { remaining = 0; elapsed = c.duration_seconds }
      else record {
        remaining = seconds_between (date_time end) now;
        elapsed = seconds_between now (date_time start);
      }
  running_shown _ _ now c = record { remaining = c.duration_seconds; elapsed = 0 }

  abbrev pub shown_of_status : ContestStatus → ℕ → AdminContestState → Shown
  shown_of_status not_started now c = record { remaining = c.duration_seconds; elapsed = 0 }
  shown_of_status running now c = running_shown (present c.start_time) (present c.end_time) now c
  shown_of_status paused now c = record {
    remaining = c.remaining_seconds;
    elapsed = c.elapsed_seconds;
  }
  shown_of_status ended now c = record { remaining = 0; elapsed = c.duration_seconds }

  unfoldable pub shown_of : ℕ → AdminContestState → Shown
  shown_of now c = shown_of_status c.status now c

  unfoldable pub tick : ℕ → TimerState → TimerState
  unfolding shown_of tick_sounds
  tick now s =
      let shown = shown_of now s.state in
      record s {
        remaining_seconds = shown.remaining;
        elapsed_seconds = shown.elapsed;
        previous_remaining = shown.remaining;
        played =
            if s.is_audio_enabled && is_status s.state.status running
            then tick_sounds s.previous_remaining shown.remaining s.played
            else s.played;
      }

-- `Boolean(x)`
abbrev pub is_set : Option Bool → Bool
is_set o = get_or_else o false

-- `syncServerState`, with the state that the backend answers; without one it only logs.
unfoldable pub sync_server_state : Option AdminContestState → TimerState → TimerState
sync_server_state none s = s
sync_server_state (some c) s = record s {
  state = c;
  settings_fullscreen = is_set c.require_fullscreen;
  settings_min_version = text_or c.min_client_version "0.2.0";
  settings_enforce_hash = is_set c.enforce_binary_hash;
  settings_authorized_hashes = text_or c.authorized_binary_hashes "";
}

-- `executeAction`: whether the action succeeds, the sound on completion, and what the backend then
-- answers to the synchronization. `isLoading` is true in between.
unfoldable pub execute_action :
    Bool → Option Sound → Option AdminContestState → TimerState → TimerState
unfolding sync_server_state
execute_action succeeds sound answer s =
    let sounded : TimerState = elim sound [
      | none ↦ s
      | some which ↦ record s { played = play s.is_audio_enabled which s.played }
    ] in
    let synced = sync_server_state answer sounded in
    record (if succeeds then synced else s) { is_loading = false }

-- The handlers of the buttons.
pub data TimerAction : Type 0 where
  start_contest pause_contest resume_contest extend_contest freeze_contest unfreeze_contest
        end_contest reset_contest :
      TimerAction

abbrev pub sound_of : TimerAction → Option Sound
sound_of start_contest = some start_sound
sound_of resume_contest = some start_sound
sound_of end_contest = some end_sound
sound_of _ = none

abbrev pub close_confirmation : TimerAction → TimerState → TimerState
close_confirmation end_contest s = record s { end_confirm_open = false }
close_confirmation reset_contest s = record s { reset_confirm_open = false }
close_confirmation _ s = s

unfoldable pub handle_action :
    TimerAction → Bool → Option AdminContestState → TimerState → TimerState
unfolding execute_action
handle_action action succeeds answer s =
    execute_action succeeds (sound_of action) answer (close_confirmation action s)

-- The shortcuts of the keyboard; `typing` says that the focus is in a field. What the browser does
-- about the full screen comes as an event of its own.
unfoldable pub handle_key_down : Bool → String → TimerState → TimerState
handle_key_down typing key s =
    if typing
    then s
    else if str_eq key "c" || str_eq key "C"
    then record s { is_clean_mode = not s.is_clean_mode }
    else if str_eq key "m" || str_eq key "M"
    then record s { is_audio_enabled = not s.is_audio_enabled }
    else s

unfoldable pub handle_fullscreen_change : Bool → TimerState → TimerState
handle_fullscreen_change full s = record s { is_fullscreen = full }
