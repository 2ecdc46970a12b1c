-- ===== src/Tests/TimerRuns.antt =====
-- The organizers' timer beside the contestants' clock.
use algo_test.Prelude.{
  ℕ, ◌≡◌, ◌≢◌, ◌⊎◌, ◌≤◌, ◌<◌, ◌/◌, List, refl, true, false, none, some, String, [], ◌∷◌, arith,
  codes, str_eq, if◌then◌else◌,
}
use algo_test.Timer.Contest.{RawContest, natural, normalize_state}
use algo_test.Timer.Settings.{
  initial_timer, open_settings, settings_of, Turn, turns, edited, polled, edit_title,
  edit_fullscreen,
}
use algo_test.Timer.Settings.Sent.{settings_of-open_settings, settings_of-turns}
use algo_test.Clock.Types.{running, ContestState, ClockState}
use algo_test.Clock.Tick.{calculate_tick}
use algo_test.Timer.{AdminContestState, TimerState, one_min, shown_of}
use algo_test.Timer.Agreement.{AreSame, calculate_tick-eq-shown_of}
use algo_test.Timer.Sounds.{count_of, ticks, ticks-heard_once}

-- The start at 5 seconds, the end at 125 seconds.
abbrev time_of_date : String → ℕ
time_of_date s = if str_eq s "end" then 125000 else 5000

abbrev contest : ContestState
contest = record {
  title = "Round";
  status = running;
  start_time = some "start";
  end_time = some "end";
  duration_seconds = 120;
  freeze_minutes = 0;
  paused_at = none;
  remaining_seconds = 120;
  elapsed_seconds = 0;
  is_frozen = false;
  require_fullscreen = none;
  download_enabled = none;
  server_time = "start";
}

abbrev clock : ClockState
clock = record {
  state = contest;
  remaining_seconds = 120;
  elapsed_seconds = 0;
  starts_in_seconds = 0;
  is_frozen = false;
  alert_toast = none;
  previous_frozen = false;
  fired_thresholds = [];
  end_refresh_triggered = false;
  syncs = 0;
  page_refreshes = 0;
}

abbrev admin_contest : AdminContestState
admin_contest = record {
  title = "Round";
  status = running;
  start_time = some "start";
  end_time = some "end";
  duration_seconds = 120;
  freeze_minutes = 0;
  paused_at = none;
  remaining_seconds = 120;
  elapsed_seconds = 0;
  is_frozen = false;
  require_fullscreen = none;
  min_client_version = none;
  enforce_binary_hash = none;
  authorized_binary_hashes = none;
  download_enabled = none;
  server_time = "start";
}

same_contest : AreSame contest admin_contest
same_contest = record {
  status = refl;
  start_time = refl;
  end_time = refl;
  duration = refl;
  remaining = refl;
  elapsed = refl;
}

calculate_tick-eq-shown_of_example :
    ((calculate_tick time_of_date (codes "0") 65000 clock).remaining_seconds
      ≡ (shown_of time_of_date 65000 admin_contest).remaining)
    × ((65000 < 125000) ⊎ (running ≢ running)
        → (calculate_tick time_of_date (codes "0") 65000 clock).elapsed_seconds
          ≡ (shown_of time_of_date 65000 admin_contest).elapsed)
calculate_tick-eq-shown_of_example =
    calculate_tick-eq-shown_of time_of_date (codes "0") "start" "end" 65000 clock admin_contest refl
      refl same_contest

abbrev timer : TimerState
timer = record {
  state = admin_contest;
  remaining_seconds = 120;
  elapsed_seconds = 0;
  previous_remaining = 120;
  is_loading = false;
  is_fullscreen = false;
  is_clean_mode = false;
  is_audio_enabled = true;
  end_confirm_open = false;
  reset_confirm_open = false;
  settings_open = false;
  settings_title = "Round";
  settings_duration = codes "2";
  settings_freeze = codes "0";
  settings_fullscreen = false;
  settings_min_version = "0.2.0";
  settings_enforce_hash = false;
  settings_authorized_hashes = "";
  played = [];
}

is_silent : count_of one_min [] ≡ 0
unfolding count_of
is_silent = refl

-- The seconds around the last minute.
ticks-heard_once_example :
    count_of one_min (ticks time_of_date (64000 ∷ 65000 ∷ 66000 ∷ 67000 ∷ []) timer).played ≤ 1
ticks-heard_once_example =
    ticks-heard_once time_of_date "start" "end" one_min 64000 (65000 ∷ 66000 ∷ 67000 ∷ []) timer
      (λ h. absurd (cc h)) refl refl refl (omega arith, (omega arith, (omega arith, tt))) is_silent

-- What the backend says of a contest without a freeze.
abbrev raw_contest : RawContest
raw_contest = record {
  title = some "Final";
  status = some running;
  start_time = none;
  end_time = none;
  duration_seconds = some 5400;
  freeze_minutes = some 0;
  paused_at = none;
  remaining_seconds = none;
  elapsed_seconds = none;
  is_frozen = none;
  require_fullscreen = some true;
  min_client_version = none;
  enforce_binary_hash = none;
  authorized_binary_hashes = none;
  download_enabled = none;
  server_time = none;
}

settings_of-open_settings_example :
    let sent = settings_of (open_settings (initial_timer (normalize_state "10:00" raw_contest))) in
    (sent.title ≡ "Final")
    × (sent.duration_minutes ≡ natural (5400 / 60))
    × (sent.freeze_minutes ≡ natural 30)
    × (sent.require_fullscreen ≡ true)
    × (sent.min_client_version ≡ "0.2.0")
    × (sent.enforce_binary_hash ≡ false)
    × (sent.authorized_binary_hashes ≡ "")
settings_of-open_settings_example = settings_of-open_settings "10:00" raw_contest

-- The full screen is asked for, and an answer without it comes.
abbrev dialog : List Turn
dialog =
    edited (edit_fullscreen true)
    ∷ polled (some admin_contest)
    ∷ edited (edit_title "Final")
    ∷ polled none
    ∷ []

settings_of-turns_example :
    ((settings_of (turns dialog timer)).title ≡ "Final")
    × ((settings_of (turns dialog timer)).require_fullscreen ≡ false)
settings_of-turns_example = settings_of-turns dialog timer
