-- ===== src/Workspace/Keys.antt =====
-- What competitor-frontend/src/components/workspace/code-editor.tsx counts of keys and pastes, and the
-- shortcuts of code-workspace.tsx beside it.
use algo_test.Prelude.{
  ℕ, ◌+◌, max, Bool, ◌&&◌, ◌||◌, not, Option, none, some, if◌then◌else◌, Text, codes, text_eq, map,
  to_lower, length, ◌==◌,
}
use algo_test.Workspace.{EditorTelemetry, Workspace}

-- A key in the editor; one that types has a single character and no modifier.
pub record EditorKey : Type 0 where
  pub key : Text
  pub has_modifier : Bool

abbrev tell : EditorTelemetry → Workspace → Workspace
tell telemetry s = record s { telemetry = telemetry; editor_telemetry = some telemetry }

unfoldable pub editor_key_down : EditorKey → Workspace → Workspace
editor_key_down e s =
    if length e.key == 1 && not e.has_modifier
    then tell (record s.telemetry { typed_count = s.telemetry.typed_count + 1 }) s
    else s

-- A paste of a text of this length.
unfoldable pub handle_paste : ℕ → Workspace → Workspace
handle_paste len s =
    tell
      (record s.telemetry {
        paste_count = s.telemetry.paste_count + 1;
        pasted_chars = s.telemetry.pasted_chars + len;
        max_paste_size = max s.telemetry.max_paste_size len;
      })
      s

-- A key in the window, with whether Ctrl or Meta and Shift are held.
pub record WindowKey : Type 0 where
  pub key : Text
  pub has_command : Bool
  pub has_shift : Bool

pub data Shortcut : Type 0 where
  to_submit to_run to_save : Shortcut

-- What `handleKeyDown` calls.
unfoldable pub shortcut_of : Bool → WindowKey → Option Shortcut
shortcut_of is_run_enabled e =
    if not e.has_command
    then none
    else if text_eq e.key (codes "Enter")
    then some (if e.has_shift || not is_run_enabled then to_submit else to_run)
    else if text_eq (map to_lower e.key) (codes "s")
    then some to_save
    else none
