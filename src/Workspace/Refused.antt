-- ===== src/Workspace/Refused.antt =====
-- What the validation of competitor-frontend/src/lib/validation/submission.ts makes of the keys and
-- pastes that the editor has counted.
use algo_test.Prelude.{
  ℕ, ◌<◌, ◌≡◌, refl, ap, sym, ◌∙◌, Bool, true, Bool-cases, Option-cases, inl, inr, String, Option,
  none, some, List, [], ◌∷◌, Text, arith, All, is_some, or_else, if-lem, lt→ltb, trim, truthy,
}
use algo_test.Feed.Types.{SubmitResult}
use algo_test.Feed.Actions.{submit_end}
use algo_test.Feed.Backend.{
  SubmitInput, SubmitRequest, SubmitData, Reply, submit_issue, submit_code, error_result,
  problem_issue, language_issue, code_issue, nonce_issue, bound_issue,
}
use algo_test.Workspace.{Workspace, EditorTelemetry}
use algo_test.Workspace.Sending.{SubmitCall, handle_submit, end_submit, is_submit_disabled}
use algo_test.Workspace.Desk.{Desk, Event, submit_now, submit_over, handle, run, submit_input}
use algo_test.Workspace.Quiet.{IsTold}
use algo_test.Workspace.Turn.{Turn, quietly, submits, ends, ticks, handle-Turn}

-- An issue that is found stays, whatever stands before it.
or_else-some : (a b : Option String) → is_some b ≡ true → is_some (or_else a b) ≡ true
or_else-some none b h = h
or_else-some (some issue) b h = refl

or_else-first : (a b : Option String) → is_some a ≡ true → is_some (or_else a b) ≡ true
or_else-first none b h = absurd (cc h)
or_else-first (some issue) b h = refl

bound_issue-above :
    (too_big : ℕ → String) (bound n : ℕ)
    → bound < n
    → is_some (bound_issue too_big bound (some n)) ≡ true
bound_issue-above too_big bound n above = rw (lt→ltb bound n above) refl

submit_issue-pasted :
    (too_big : ℕ → String) (input : SubmitInput) (n : ℕ)
    → input.telemetry.pasted_chars ≡ some n
    → 1000000 < n
    → is_some (submit_issue too_big input) ≡ true
unfolding submit_issue
submit_issue-pasted too_big input n pasted above =
    or_else-some (problem_issue (trim input.problem_id)) _ (
      or_else-some (language_issue (trim input.language)) _ (
        or_else-some (code_issue input.code) _ (
          or_else-some (bound_issue too_big 10000 (some input.previous_best)) _ (
            or_else-some (nonce_issue input.attest_nonce) _ (
              or_else-some (bound_issue too_big 1000000 input.telemetry.typed_count) _ (
                or_else-some (bound_issue too_big 100000 input.telemetry.paste_count) _ (
                  or_else-first (bound_issue too_big 1000000 input.telemetry.pasted_chars) _
                    (rw pasted (bound_issue-above too_big 1000000 n above)))))))))

module _ (too_big : ℕ → String) (answer : SubmitRequest → Reply SubmitData)
    (nonce : Option Text) where
  -- The validation refuses the call, and the backend is not asked.
  abbrev pub IsRefused : SubmitCall → Type 0
  IsRefused call =
      (message : String) × (submit_code too_big answer (submit_input nonce call)
        ≡ error_result call.previous_best message none none)

  submit_code-IsRefused :
      (call : SubmitCall) (t : EditorTelemetry)
      → call.telemetry ≡ some t
      → 1000000 < t.pasted_chars
      → IsRefused call
  unfolding submit_code
  submit_code-IsRefused call t told above =
      let input = submit_input nonce call in
      let issue : is_some (submit_issue too_big input) ≡ true =
        submit_issue-pasted too_big input t.pasted_chars (rw told refl) above in
      elim (Option-cases (submit_issue too_big input)) [
        | inl fine ↦ absurd (cc (sym issue ∙ ap is_some fine))
        | inr (message, wrong) ↦ (message, rw (submit_code, wrong) refl)
      ]

  -- The editor has told of more than 1,000,000 pasted characters, and all calls are refused.
  IsLocked : Desk → Type 0
  IsLocked d =
      IsTold d.workspace × (1000000 < d.workspace.telemetry.pasted_chars) × All IsRefused d.calls

  Turn-IsLocked :
      (problem_id : String) {k : ℕ} (d : Desk) {e : Desk}
      → Turn problem_id d k e
      → IsLocked d
      → IsLocked e
  unfolding IsLocked submit_now handle_submit submit_over end_submit
  Turn-IsLocked problem_id d (quietly ((idle, same, keeps, more, tells), pending, calls))
        (told, above, refused) =
      (tells told, omega (arith, more, above), rw calls refused)
  Turn-IsLocked problem_id d submits (told, above, refused) =
      elim (Bool-cases (is_submit_disabled problem_id d.contest d.feed d.workspace)) [
        | inl disabled ↦ rw disabled (told, above, refused)
        | inr enabled ↦
            rw enabled
              (told, above, (submit_code-IsRefused _ d.workspace.telemetry told above, refused))
      ]
  Turn-IsLocked problem_id d (ends now stamp outcome) (told, above, refused) =
      elim (Option-cases d.pending) [
        | inl idle ↦ rw idle (told, above, refused)
        | inr (call, going) ↦
            let r : SubmitResult =
              (submit_end now call.problem_id call.previous_best outcome d.feed).1 in
            rw going (
              if-lem
                (λ (s : Workspace).
                  IsTold s × (1000000 < s.telemetry.pasted_chars) × All IsRefused d.calls)
                (truthy r.submission_id) (told, above, refused) (told, above, refused))
      ]
  Turn-IsLocked problem_id d ticks locked = locked

  run-IsLocked :
      (is_run_enabled : Bool) (problem_id : String) (events : List Event) (d : Desk)
      → IsLocked d
      → IsLocked (run is_run_enabled problem_id events d)
  run-IsLocked is_run_enabled problem_id [] d locked = locked
  run-IsLocked is_run_enabled problem_id (event ∷ events) d locked =
      run-IsLocked is_run_enabled problem_id events (handle is_run_enabled problem_id event d)
        (Turn-IsLocked problem_id d (handle-Turn is_run_enabled problem_id event d) locked)

  -- Once the editor has told of more than 1,000,000 pasted characters, the validation refuses every
  -- later submission of the page, whatever its code is and whatever happens in between: the backend
  -- is not asked again.
  pub calls-run-AreRefused :
      (is_run_enabled : Bool) (problem_id : String) (events : List Event) (d : Desk)
      → IsTold d.workspace
      → 1000000 < d.workspace.telemetry.pasted_chars
      → All IsRefused (run is_run_enabled problem_id events (record d { calls = [] })).calls
  unfolding IsLocked
  calls-run-AreRefused is_run_enabled problem_id events d told above =
      let (tells, more, refused) =
        run-IsLocked is_run_enabled problem_id events (record d { calls = [] }) (told, above, tt) in
      refused
