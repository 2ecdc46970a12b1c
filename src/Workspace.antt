-- ===== src/Workspace.antt =====
-- competitor-frontend/src/components/workspace/code-workspace.tsx: the editor of one problem, its
-- runs and its submissions, with what code-editor.tsx beside it counts of keys and pastes. An
-- asynchronous handler is two functions, up to the call of the server and from its end on. The
-- contest, the submissions that the portal follows, the clock and drawn ids are arguments.
pub mod Sending
pub mod Keys
pub mod Desk
pub mod Quiet
pub mod Turn
pub mod Sound
pub mod Refused
use algo_test.Prelude.{
  ℕ, ◌+◌, ◌-◌, max, Bool, true, false, ◌&&◌, ◌||◌, not, String, Option, none, some, List, [], ◌∷◌,
  ◌++◌, if◌then◌else◌, Text, codes, text_eq, str_eq, trim, is_blank, ltb, find, any, is_some,
  truthy, get_or_else, decimal, map, to_lower, Map, length, ◌==◌,
}
use algo_test.Languages.{Language, languages, cpp_language, get_language}
use algo_test.History.{Snapshot, SnapshotTrigger, autosave, ran, submitted, Extra, record_snapshot}
use algo_test.Feed.Types.{SubmitResult, ActiveSubmission}
use algo_test.Feed.Provider.{FeedState}
use algo_test.Feed.Actions.{same_problem}
use algo_test.Feed.Backend.{status_name}
use algo_test.Feed.Runs.{RunResult}

pub record EditorTelemetry : Type 0 where
  pub typed_count : ℕ
  pub paste_count : ℕ
  pub pasted_chars : ℕ
  pub max_paste_size : ℕ

pub data Tab : Type 0 where
  test_tab submission_tab : Tab

-- The states and the refs of the component; `telemetry` is the ref of the editor, and
-- `editor_telemetry` what it has told of it.
pub record Workspace : Type 0 where
  pub language : Language
  pub code : Text
  pub stdin : Text
  pub has_edited : Bool
  pub run_result : Option RunResult
  pub running : Bool
  pub submit_result : Option SubmitResult
  pub submitting : Bool
  pub telemetry : EditorTelemetry
  pub editor_telemetry : Option EditorTelemetry
  pub tab : Tab
  pub snapshots : List Snapshot
  pub stored_best : ℕ
  pub recorded_result : Option Text
  pub run_cooldown : ℕ
  pub submit_cooldown : ℕ

-- What `useContest` tells.
pub record Contest : Type 0 where
  pub is_not_started : Bool
  pub is_paused : Bool
  pub is_ended : Bool

abbrev no_telemetry : EditorTelemetry
no_telemetry = record { typed_count = 0; paste_count = 0; pasted_chars = 0; max_paste_size = 0 }

-- The page when it is opened, with what the storage holds.
abbrev pub open_workspace : Bool → Text → ℕ → List Snapshot → Workspace
open_workspace is_run_enabled sample stored_best snapshots = record {
  language = cpp_language;
  code = cpp_language.starter;
  stdin = sample;
  has_edited = false;
  run_result = none;
  running = false;
  submit_result = none;
  submitting = false;
  telemetry = no_telemetry;
  editor_telemetry = none;
  tab = if is_run_enabled then test_tab else submission_tab;
  snapshots = snapshots;
  stored_best = stored_best;
  recorded_result = none;
  run_cooldown = 0;
  submit_cooldown = 0;
}

abbrev from_draft : List Snapshot → Workspace → Workspace
from_draft [] s = s
from_draft (draft ∷ rest) s = record s {
  language = get_or_else (get_language draft.language) cpp_language;
  code = draft.code;
}

-- The effect that loads the first stored snapshot, unless the code has been edited.
unfoldable pub load_draft : List Snapshot → Workspace → Workspace
load_draft stored s = if s.has_edited then s else from_draft stored s

-- The id and the time of a new snapshot.
pub record Stamp : Type 0 where
  pub id : Text
  pub now : ℕ

abbrev pub nothing_more : Extra
nothing_more = record { verdict = none; score = none; max_score = none; submission_id = none }

-- `record` of the history hook.
abbrev pub record_in : Stamp → SnapshotTrigger → Text → Text → Extra → Workspace → Workspace
record_in stamp trigger language code extra s = record s {
  snapshots = record_snapshot stamp.id stamp.now trigger language code extra s.snapshots;
}

-- The autosave when its timer ends, and the one of Ctrl+S.
abbrev pub save_code : Stamp → Workspace → Workspace
save_code stamp s = record_in stamp autosave s.language.id s.code nothing_more s

-- `savedDraft?.code ?? next.starter`
abbrev saved_code : Language → List Snapshot → Text
saved_code next snapshots = elim (find (λ snapshot. text_eq snapshot.language next.id) snapshots) [
  | none ↦ next.starter
  | some draft ↦ draft.code
]

abbrev language_of : Option Text → Language
language_of none = cpp_language
language_of (some id) =
    get_or_else (find (λ language. text_eq language.id id) languages) cpp_language

unfoldable pub handle_language_change : Stamp → Option Text → Workspace → Workspace
handle_language_change stamp id s =
    let next = language_of id in
    record (save_code stamp s) { language = next; code = saved_code next s.snapshots }

abbrev pub handle_code_change : Text → Workspace → Workspace
handle_code_change next s = record s { has_edited = true; code = next }

abbrev pub change_stdin : Text → Workspace → Workspace
change_stdin next s = record s { stdin = next }

unfoldable pub handle_restore : Snapshot → Workspace → Workspace
handle_restore snapshot s = record s {
  language = get_or_else (get_language snapshot.language) s.language;
  code = snapshot.code;
}
