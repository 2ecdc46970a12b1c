-- ===== src/Timer/Settings.antt =====
-- The settings dialog of admin-frontend/src/components/timer/contest-timer-client.tsx: it is filled
-- from the state when it is opened, edited, and saved through the action of Contest.antt.
pub mod Sent
use algo_test.Prelude.{
  ℕ, ◌/◌, ◌==◌, Bool, true, false, String, Option, none, some, List, [], ◌∷◌, if◌then◌else◌, Text,
  codes, decimal, digits, read_decimal, trim_start, is_blank,
}
use algo_test.Timer.{AdminContestState, TimerState, text_or, is_set, sync_server_state}
use algo_test.Timer.Contest.{
  ContestSettings, ParsedNumber, not_a_number, natural, below_zero, ContestRequest, ContestReply,
  ContestResult, contest_state, contest_error, update_contest_settings_action,
}

-- The states when the page is opened.
unfoldable pub initial_timer : AdminContestState → TimerState
unfolding decimal
initial_timer c = record {
  state = c;
  remaining_seconds = c.remaining_seconds;
  elapsed_seconds = c.elapsed_seconds;
  previous_remaining = c.remaining_seconds;
  is_loading = false;
  is_fullscreen = false;
  is_clean_mode = false;
  is_audio_enabled = true;
  end_confirm_open = false;
  reset_confirm_open = false;
  settings_open = false;
  settings_title = c.title;
  settings_duration = decimal (c.duration_seconds / 60);
  settings_freeze = decimal c.freeze_minutes;
  settings_fullscreen = is_set c.require_fullscreen;
  settings_min_version = text_or c.min_client_version "0.2.0";
  settings_enforce_hash = is_set c.enforce_binary_hash;
  settings_authorized_hashes = text_or c.authorized_binary_hashes "";
  played = [];
}

-- `onOpenSettings`
unfoldable pub open_settings : TimerState → TimerState
unfolding decimal
open_settings s = record s {
  settings_title = s.state.title;
  settings_duration = decimal (s.state.duration_seconds / 60);
  settings_freeze = decimal s.state.freeze_minutes;
  settings_open = true;
}

-- What is edited in the dialog.
pub data Edit : Type 0 where
  edit_title : String → Edit
  edit_duration edit_freeze : Text → Edit
  edit_fullscreen edit_enforce_hash : Bool → Edit
  edit_min_version edit_authorized_hashes : String → Edit

unfoldable pub edit_settings : Edit → TimerState → TimerState
edit_settings (edit_title title) s = record s { settings_title = title }
edit_settings (edit_duration text) s = record s { settings_duration = text }
edit_settings (edit_freeze text) s = record s { settings_freeze = text }
edit_settings (edit_fullscreen test) s = record s { settings_fullscreen = test }
edit_settings (edit_enforce_hash test) s = record s { settings_enforce_hash = test }
edit_settings (edit_min_version text) s = record s { settings_min_version = text }
edit_settings (edit_authorized_hashes text) s = record s { settings_authorized_hashes = text }

-- While the dialog is open: an edit, or the synchronization that runs each second, with what the
-- backend answers.
pub data Turn : Type 0 where
  edited : Edit → Turn
  polled : Option AdminContestState → Turn

unfoldable pub turn : Turn → TimerState → TimerState
unfolding edit_settings sync_server_state
turn (edited edit) s = edit_settings edit s
turn (polled answer) s = sync_server_state answer s

unfoldable pub turns : List Turn → TimerState → TimerState
unfolding turn
turns [] s = s
turns (t ∷ rest) s = turns rest (turn t s)

-- The digits of a number without a sign; `make` puts the sign on.
abbrev pub signed : (ℕ → ParsedNumber) → Text → ParsedNumber
signed make found = if is_blank found then not_a_number else make (read_decimal 0 found)

abbrev pub negated : ℕ → ParsedNumber
negated n = if n == 0 then natural 0 else below_zero n

-- `parseInt(text, 10)`
unfoldable pub parse_int : Text → ParsedNumber
parse_int text = elim (trim_start text) [
  | [] ↦ not_a_number
  | c ∷ rest ↦
      if c == b'-'
      then signed negated (digits rest)
      else if c == b'+'
      then signed natural (digits rest)
      else signed natural (digits (c ∷ rest))
]

-- What `handleSaveSettings` hands to the action.
unfoldable pub settings_of : TimerState → ContestSettings
settings_of s = record {
  title = s.settings_title;
  duration_minutes = parse_int s.settings_duration;
  freeze_minutes = parse_int s.settings_freeze;
  require_fullscreen = s.settings_fullscreen;
  min_client_version = s.settings_min_version;
  enforce_binary_hash = s.settings_enforce_hash;
  authorized_binary_hashes = s.settings_authorized_hashes;
}

-- `handleSaveSettings`, with what the backend answers to the request and, when that has succeeded,
-- to the synchronization. `isLoading` is true in between.
unfoldable pub handle_save_settings :
    String → (ContestRequest → ContestReply) → Option AdminContestState → TimerState → TimerState
handle_save_settings now_text answer synced s =
    elim (update_contest_settings_action now_text answer (settings_of s)) [
      | contest_error message ↦ record s { is_loading = false }
      | contest_state c ↦ record (sync_server_state synced (record s { settings_open = false })) {
        is_loading = false;
      }
    ]
