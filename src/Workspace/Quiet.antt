-- ===== src/Workspace/Quiet.antt =====
-- What the handlers that do not submit leave of the workspace.
use algo_test.Prelude.{
  ℕ, ◌≤◌, ◌≡◌, refl, Bool, String, Option, none, some, List, [], ◌∷◌, Text, arith, if-lem, is_blank,
  trim, length, ◌==◌, ◌&&◌, ◌||◌, not, truthy,
}
use algo_test.History.{Snapshot, SnapshotTrigger, autosave, ran, submitted, Extra}
use algo_test.History.Kept.{IsKept, record_snapshot-IsKept}
use algo_test.Feed.Types.{SubmitResult}
use algo_test.Feed.Runs.{RunResult}
use algo_test.Workspace.{
  Workspace, Contest, Stamp, load_draft, save_code, record_in, handle_language_change,
  handle_restore,
}
use algo_test.Workspace.Sending.{
  RunCall, handle_run, end_run, result_effect, result_version, is_recorded, is_run_disabled,
}
use algo_test.Workspace.Keys.{EditorKey, editor_key_down, handle_paste}

-- The editor has told what it counts.
abbrev pub IsTold : Workspace → Type 0
IsTold s = s.editor_telemetry ≡ some s.telemetry

-- Nothing is submitted, the snapshots stay in order, and nothing that was pasted is forgotten.
abbrev pub IsQuiet : Workspace → Workspace → Type 0
IsQuiet s t =
    (t.submitting ≡ s.submitting)
    × (t.submit_cooldown ≡ s.submit_cooldown)
    × (IsKept s.snapshots → IsKept t.snapshots)
    × (s.telemetry.pasted_chars ≤ t.telemetry.pasted_chars)
    × (IsTold s → IsTold t)

pub same-IsQuiet : (s : Workspace) → IsQuiet s s
same-IsQuiet s = (refl, refl, λ kept. kept, omega arith, λ told. told)

record_in-IsQuiet :
    (stamp : Stamp) (trigger : SnapshotTrigger) (language code : Text) (extra : Extra)
    (s : Workspace)
    → IsQuiet s (record_in stamp trigger language code extra s)
record_in-IsQuiet stamp trigger language code extra s = (
  refl,
  refl,
  λ kept. record_snapshot-IsKept stamp.id stamp.now trigger language code extra s.snapshots kept,
  omega arith,
  λ told. told,
)

pub load_draft-IsQuiet : (stored : List Snapshot) (s : Workspace) → IsQuiet s (load_draft stored s)
unfolding load_draft
load_draft-IsQuiet [] s = if-lem (IsQuiet s) s.has_edited (same-IsQuiet s) (same-IsQuiet s)
load_draft-IsQuiet (draft ∷ rest) s =
    if-lem (IsQuiet s) s.has_edited (same-IsQuiet s)
      (refl, refl, λ kept. kept, omega arith, λ told. told)

pub save_code-IsQuiet : (stamp : Stamp) (s : Workspace) → IsQuiet s (save_code stamp s)
save_code-IsQuiet stamp s = record_in-IsQuiet stamp autosave s.language.id s.code _ s

pub handle_language_change-IsQuiet :
    (stamp : Stamp) (id : Option Text) (s : Workspace)
    → IsQuiet s (handle_language_change stamp id s)
unfolding handle_language_change
handle_language_change-IsQuiet stamp id s = save_code-IsQuiet stamp s

pub handle_run-IsQuiet :
    (is_run_enabled : Bool) (problem_id : String) (contest : Contest) (stamp : Stamp)
    (s : Workspace)
    → IsQuiet s (handle_run is_run_enabled problem_id contest stamp s).0
unfolding handle_run
handle_run-IsQuiet is_run_enabled problem_id contest stamp s =
    if-lem (λ (r : Workspace × Option RunCall). IsQuiet s r.0)
      (is_run_disabled is_run_enabled contest s) (same-IsQuiet s)
      (if-lem (λ (r : Workspace × Option RunCall). IsQuiet s r.0) (is_blank (trim s.code))
        (same-IsQuiet s) (record_in-IsQuiet stamp ran s.language.id s.code _ s))

pub end_run-IsQuiet : (result : Option RunResult) (s : Workspace) → IsQuiet s (end_run result s)
unfolding end_run
end_run-IsQuiet none s = same-IsQuiet s
end_run-IsQuiet (some result) s = same-IsQuiet s

pub result_effect-IsQuiet :
    (stamp : Stamp) (shown : Option SubmitResult) (s : Workspace)
    → IsQuiet s (result_effect stamp shown s)
unfolding result_effect
result_effect-IsQuiet stamp none s = same-IsQuiet s
result_effect-IsQuiet stamp (some r) s =
    if-lem (IsQuiet s)
      (not (truthy r.submission_id) || is_recorded (result_version r) s.recorded_result)
      (same-IsQuiet s) (record_in-IsQuiet stamp submitted s.language.id s.code _ s)

pub handle_restore-IsQuiet :
    (snapshot : Snapshot) (s : Workspace) → IsQuiet s (handle_restore snapshot s)
unfolding handle_restore
handle_restore-IsQuiet snapshot s = same-IsQuiet s

pub editor_key_down-IsQuiet : (e : EditorKey) (s : Workspace) → IsQuiet s (editor_key_down e s)
unfolding editor_key_down
editor_key_down-IsQuiet e s =
    if-lem (IsQuiet s) (length e.key == 1 && not e.has_modifier)
      (refl, refl, λ kept. kept, omega arith, λ told. refl) (same-IsQuiet s)

pub handle_paste-IsQuiet : (len : ℕ) (s : Workspace) → IsQuiet s (handle_paste len s)
unfolding handle_paste
handle_paste-IsQuiet len s = (refl, refl, λ kept. kept, omega arith, λ told. refl)
