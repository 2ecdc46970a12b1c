-- ===== src/Feed/Backend/Taken.antt =====
-- Which submissions the portal follows after a call of `submitCode`.
use algo_test.Prelude.{
  ℕ, ◌≡◌, ◌⊎◌, inl, inr, refl, ap, sym, ◌∙◌, String, Option, none, some, Text, truthy, has, get,
  get-put, str_eq, str_eq_iff, Bool-cases, Option-cases, Map,
}
use algo_test.Feed.Types.{SubmitResult, ActiveSubmission}
use algo_test.Feed.Provider.{FeedState}
use algo_test.Feed.Actions.{resolved, submit_end, track_submission}
use algo_test.Feed.Backend.{
  SubmitInput, SubmitRequest, SubmitData, Reply, refused, taken, thrown, submit_issue, submit_code,
  result_of, request_of,
}

-- The active submissions when the action has ended with a result.
abbrev pub active_after : Text → String → ℕ → SubmitResult → FeedState → Map ActiveSubmission
active_after now problem_id previous_best r s =
    let ended : FeedState × SubmitResult = submit_end now problem_id previous_best (resolved r) s in
    ended.0.active_submissions

get-track_submission :
    (j id problem_id : String) (queue_position : Option ℕ) (s : FeedState)
    → (get j (track_submission id problem_id queue_position s).active_submissions
        ≡ get j s.active_submissions)
      ⊎ (id ≡ j)
unfolding track_submission
get-track_submission j id problem_id queue_position s = elim (Bool-cases (has id s.latest)) [
  | inl known ↦ rw known (inl refl)
  | inr new ↦ elim (Bool-cases (str_eq id j)) [
    | inl same ↦ inr ((str_eq_iff id j).0 same)
    | inr other ↦ rw new (inl (get-put id j _ s.active_submissions ∙ rw other refl))
  ]
]

-- Only the entry of the submission that the result names can change.
submit_end-named :
    (now : Text) (problem_id j : String) (previous_best : ℕ) (r : SubmitResult) (s : FeedState)
    → (get j (active_after now problem_id previous_best r s) ≡ get j s.active_submissions)
      ⊎ (r.submission_id ≡ some j)
unfolding submit_end
submit_end-named now problem_id j previous_best r s = elim (Bool-cases (truthy r.error)) [
  | inl failed ↦ rw (active_after, submit_end, failed) (inl refl)
  | inr fine ↦ elim (Option-cases r.submission_id) [
    | inl absent ↦ rw (active_after, submit_end, fine, absent) (inl refl)
    | inr (id, named) ↦ elim (Bool-cases (truthy (some id))) [
      | inl real ↦ elim (get-track_submission j id problem_id r.queue_position s) [
        | inl same ↦ inl (rw (active_after, submit_end, fine, named, real) same)
        | inr this ↦ inr (named ∙ ap (λ n. some n) this)
      ]
      | inr empty ↦ inl (rw (active_after, submit_end, fine, named, empty) refl)
    ]
  ]
]

result_of-named :
    (reply : Reply SubmitData) (previous_best : ℕ) (j : String)
    → (result_of previous_best reply).submission_id ≡ some j
    → (answered : SubmitData) × (reply ≡ taken answered) × (answered.id ≡ some j)
unfolding result_of
result_of-named (refused status body) previous_best j h = absurd (cc h)
result_of-named (thrown message) previous_best j h = absurd (cc h)
result_of-named (taken answered) previous_best j h = (answered, refl, h)

submit_code-named :
    (too_big : ℕ → String) (answer : SubmitRequest → Reply SubmitData) (input : SubmitInput)
    (j : String)
    → (submit_code too_big answer input).submission_id ≡ some j
    → (answered : SubmitData) × (answer (request_of input) ≡ taken answered)
      × (answered.id ≡ some j)
      × (submit_issue too_big input ≡ none)
unfolding submit_code
submit_code-named too_big answer input j h = elim (Option-cases (submit_issue too_big input)) [
  | inr (message, e) ↦
      let gone : (submit_code too_big answer input).submission_id ≡ none =
        rw (submit_code, e) refl in
      absurd (cc (h, gone))
  | inl e ↦
      let same : submit_code too_big answer input
          ≡ result_of input.previous_best (answer (request_of input)) =
        rw (submit_code, e) refl in
      let (answered, took, named) =
        result_of-named (answer (request_of input)) input.previous_best j
          (sym (ap (λ r. r.submission_id) same) ∙ h) in
      (answered, took, named, e)
]

-- If the entry of an id among the active submissions changes when a call of the action ends, then
-- the input had no issue, and the backend took the submission and gave it this id.
pub submit_end-submit_code :
    (too_big : ℕ → String) (answer : SubmitRequest → Reply SubmitData) (input : SubmitInput)
    (now : Text) (problem_id j : String) (s : FeedState)
    → let result = submit_code too_big answer input in
      (get j (active_after now problem_id input.previous_best result s)
        ≡ get j s.active_submissions)
      ⊎ ((answered : SubmitData) × (answer (request_of input) ≡ taken answered)
          × (answered.id ≡ some j)
          × (submit_issue too_big input ≡ none))
submit_end-submit_code too_big answer input now problem_id j s =
    elim (submit_end-named now problem_id j input.previous_best (submit_code too_big answer input)
      s) [ inl same ↦ inl same | inr named ↦ inr (submit_code-named too_big answer input j named) ]
