-- ===== src/Feed/Runs/Exits.antt =====
-- The exit code of a run that did not take place.
use algo_test.Prelude.{
  ℕ, ◌≡◌, ◌≢◌, ◌⊎◌, refl, String, Option, none, Option-cases, inl, inr, arith, sym, ◌∙◌, ap,
}
use algo_test.Feed.Backend.{Reply, refused, taken, thrown, ErrorBody}
use algo_test.Feed.Runs.{
  RunInput, RunRequest, RunResult, run_issue, run_code, refused_run, run_request,
}

refused_run-exit_code :
    (status : ℕ) (body : ErrorBody) → status ≢ 0 → (refused_run status body).exit_code ≢ 0
unfolding refused_run
refused_run-exit_code status body real = ground (arith, real)

Reply-cases :
    (reply : Reply RunResult)
    → ((status : ℕ) × (body : ErrorBody) × (reply ≡ refused status body))
      ⊎ ((result : RunResult) × (reply ≡ taken result))
      ⊎ ((message : Option String) × (reply ≡ thrown message))
Reply-cases (refused status body) = inl (status, body, refl)
Reply-cases (taken result) = inr (inl (result, refl))
Reply-cases (thrown message) = inr (inr (message, refl))

-- If the backend refuses with no status of 0, then a run that shows the exit code 0 has taken
-- place: the input had no issue, and what is shown is what the backend answered.
pub run_code-exit_code :
    (answer : RunRequest → Reply RunResult) (input : RunInput)
    → ((body : ErrorBody) → answer (run_request input) ≢ refused 0 body)
    → (run_code answer input).exit_code ≡ 0
    → (run_issue input ≡ none) × (answer (run_request input) ≡ taken (run_code answer input))
unfolding run_code
run_code-exit_code answer input real zero_shown = elim (Option-cases (run_issue input)) [
  | inr (message, e) ↦
      let code : (run_code answer input).exit_code ≡ 1 = rw (run_code, e) refl in
      absurd (omega (arith, code, zero_shown))
  | inl e ↦ elim (Reply-cases (answer (run_request input))) [
    | inl (status, body, r) ↦
        let code : (run_code answer input).exit_code ≡ (refused_run status body).exit_code =
          rw (run_code, e, r) refl in
        let nonzero : status ≢ 0 = λ h. real body (r ∙ ap (λ n. refused n body) h) in
        absurd (refused_run-exit_code status body nonzero (sym code ∙ zero_shown))
    | inr (inl (result, r)) ↦
        let shown : run_code answer input ≡ result = rw (run_code, e, r) refl in
        (e, r ∙ ap (λ x. taken x) (sym shown))
    | inr (inr (message, r)) ↦
        let code : (run_code answer input).exit_code ≡ 1 = rw (run_code, e, r) refl in
        absurd (omega (arith, code, zero_shown))
  ]
]
