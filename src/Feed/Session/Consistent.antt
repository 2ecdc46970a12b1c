-- ===== src/Feed/Session/Consistent.antt =====
-- Sessions keep the state consistent, and what the restored list can do to it.
use algo_test.Prelude.{
  ℕ, ◌+◌, ◌≡◌, refl, subst, String, Option, some, none, List, [], ◌∷◌, inl, inr, arith, Bool-cases,
  truthy, Text, has, get, get-put, str_eq, str_eq_iff, is_some, true, Option-cases, All, Map,
  or_else, ◌∙◌,
}
use algo_test.Feed.Types.{
  SubmissionStatus, SubmissionStatusResponse, SubmissionItem, ActiveSubmission,
}
use algo_test.Feed.Provider.{FeedState, apply_progress}
use algo_test.Feed.Provider.Consistent.{
  IsConsistent, Agrees, apply_progress-IsConsistent, handle_event-IsConsistent,
}
use algo_test.Feed.Actions.{
  merge_restored, restored, restored_entry, restore_item, live_status, spread, restore_active, poll,
  poll_target, SubmitOutcome, resolved, thrown, submit_start, submit_end, track_submission,
}
use algo_test.Feed.Actions.Spread.{get-spread}
use algo_test.Feed.Session.{
  FeedEvent, stream_event, poll_round, list_loaded, submit_started, submit_ended, toast_cleared,
  opened, step, run,
}

-- A state with the same two tables is as consistent.
same_tables-IsConsistent :
    (s t : FeedState)
    → t.active_submissions ≡ s.active_submissions
    → t.latest ≡ s.latest
    → IsConsistent s
    → IsConsistent t
same_tables-IsConsistent s t a l c = record {
  agrees = λ id. rw (a, l) (c.agrees id);
  keys = rw l c.keys;
  bounded = rw l c.bounded;
}

track_submission-IsConsistent :
    (id problem_id : String) (position : Option ℕ) (s : FeedState)
    → IsConsistent s
    → IsConsistent (track_submission id problem_id position s)
unfolding track_submission
track_submission-IsConsistent id problem_id position s c = elim (Option-cases (get id s.latest)) [
  | inr (r, e) ↦ rw e c
  | inl e ↦ rw e (record {
    agrees = λ j. rw get-put (elim (Bool-cases (str_eq id j)) [
      | inl same ↦
          let unknown : get j s.latest ≡ none =
            subst (λ k. get k s.latest ≡ none) ((str_eq_iff id j).0 same) e in
          rw unknown tt
      | inr other ↦ rw other (c.agrees j)
    ]);
    keys = c.keys;
    bounded = c.bounded;
  })
]

submit_end-IsConsistent :
    (now : Text) (problem_id : String) (best : ℕ) (outcome : SubmitOutcome) (s : FeedState)
    → IsConsistent s
    → IsConsistent (submit_end now problem_id best outcome s).0
unfolding submit_end
submit_end-IsConsistent now problem_id best (thrown message) s c =
    same_tables-IsConsistent s _ refl refl c
submit_end-IsConsistent now problem_id best (resolved r) s c = elim (Bool-cases (truthy r.error)) [
  | inl failing ↦ rw failing (same_tables-IsConsistent s _ refl refl c)
  | inr fine ↦ elim (Bool-cases (truthy r.submission_id)) [
    | inl named ↦ rw (fine, named) (track_submission-IsConsistent _ problem_id _ s c)
    | inr unnamed ↦ rw (fine, unnamed) c
  ]
]

submit_start-IsConsistent :
    (problem_id : String) (s : FeedState)
    → IsConsistent s
    → IsConsistent (submit_start problem_id s)
unfolding submit_start
submit_start-IsConsistent problem_id s c =
    same_tables-IsConsistent s _ (ground arith) (ground arith) c

abbrev Known : FeedState → String → Type 0
Known s id = has id s.latest ≡ true

-- The loop does not touch a submission that is known, if none of the listed ones is.
get-restored :
    (s : FeedState) (id : String) (items : List SubmissionItem) (m : Map ActiveSubmission)
    → Known s id
    → All (λ item. get item.submission_id s.latest ≡ none) items
    → get id (restored m items) ≡ get id m
unfolding restored
get-restored s id [] m known timely = refl
get-restored s id (item ∷ items) m known (unknown, timely) =
    get-restored s id items _ known timely ∙ untouched (live_status item.status)
  where
    untouched : (o : Option SubmissionStatus) → get id (restore_item item o m) ≡ get id m
    untouched none = refl
    untouched (some status) = ground (
      arith,
      str_eq_iff item.submission_id id,
      get-put item.submission_id id (restored_entry item status) m,
    )

spread-IsConsistent :
    (s : FeedState) (m : Map ActiveSubmission)
    → ((id : String) → Known s id → get id m ≡ none)
    → IsConsistent s
    → IsConsistent (record s { active_submissions = spread m s.active_submissions })
spread-IsConsistent s m absent c = record {
  agrees = λ id.
      rw (get-spread id m s.active_submissions)
        (kept (get id s.latest) (get id s.active_submissions) (get id m) (c.agrees id) (absent id));
  keys = c.keys;
  bounded = c.bounded;
}
  where
    kept :
        (o : Option SubmissionStatusResponse) (a b : Option ActiveSubmission)
        → Agrees o a
        → (is_some o ≡ true → b ≡ none)
        → Agrees o (or_else a b)
    kept none a b h k = tt
    kept (some r) none b h k = rw (k refl) h
    kept (some r) (some x) b h k = h

module _ (date_parse : String → Option ℕ) where
  poll-IsConsistent :
      (answer : String → Option SubmissionStatusResponse) (ids : List String) (s : FeedState)
      → IsConsistent s
      → IsConsistent (poll date_parse answer ids s)
  unfolding poll
  poll-IsConsistent answer ids s c =
      elim (poll_target ids s.poll_index)
        as (λ target. IsConsistent (elim target [
          | none ↦ polled
          | some id ↦ elim (answer id) [
            | none ↦ polled
            | some r ↦ apply_progress date_parse r polled
          ]
        ])) [
          | none ↦ polled-IsConsistent
          | some id ↦
              elim (answer id)
                as (λ a.
                  IsConsistent
                    (elim a [ none ↦ polled | some r ↦ apply_progress date_parse r polled ])) [
                      | none ↦ polled-IsConsistent
                      | some r ↦ apply_progress-IsConsistent date_parse r polled polled-IsConsistent
                    ]
        ]
    where
      polled : FeedState
      polled = record s { poll_index = s.poll_index + 1 }

      polled-IsConsistent : IsConsistent polled
      polled-IsConsistent = same_tables-IsConsistent s polled refl refl c

  -- A loaded list says nothing of a submission that an update has come of.
  abbrev pub IsTimely : FeedState → FeedEvent → Type 0
  IsTimely s (list_loaded items) = All (λ item. get item.submission_id s.latest ≡ none) items
  IsTimely s _ = Unit

  restore_active-IsConsistent :
      (items : List SubmissionItem) (s : FeedState)
      → IsTimely s (list_loaded items)
      → IsConsistent s
      → IsConsistent (restore_active items s)
  unfolding restore_active
  restore_active-IsConsistent items s timely c =
      loaded (restored [] items)
        (λ id known. get-restored s id items [] known timely ∙ unfold get in refl)
    where
      loaded :
          (m : Map ActiveSubmission)
          → ((id : String) → Known s id → get id m ≡ none)
          → IsConsistent (merge_restored m s)
      loaded [] absent = c
      loaded (e ∷ rest) absent = spread-IsConsistent s (e ∷ rest) absent c

  -- One event, if it is timely, leaves the state consistent.
  pub step-IsConsistent :
      (s : FeedState) (e : FeedEvent)
      → IsTimely s e
      → IsConsistent s
      → IsConsistent (step date_parse s e)
  unfolding step
  step-IsConsistent s (stream_event r) timely c = handle_event-IsConsistent date_parse r s c
  step-IsConsistent s (poll_round ids answer) timely c = poll-IsConsistent answer ids s c
  step-IsConsistent s (list_loaded items) timely c = restore_active-IsConsistent items s timely c
  step-IsConsistent s (submit_started problem_id) timely c =
      submit_start-IsConsistent problem_id s c
  step-IsConsistent s (submit_ended now problem_id best outcome) timely c =
      submit_end-IsConsistent now problem_id best outcome s c
  step-IsConsistent s toast_cleared timely c = same_tables-IsConsistent s _ refl refl c

  -- Each list that is loaded in the session is timely when it comes.
  abbrev pub AllTimely : FeedState → List FeedEvent → Type 0
  AllTimely s [] = Unit
  AllTimely s (e ∷ events) = IsTimely s e × AllTimely (step date_parse s e) events

  run-IsConsistent_from :
      (s : FeedState) (events : List FeedEvent)
      → IsConsistent s
      → AllTimely s events
      → IsConsistent (run date_parse s events)
  unfolding run
  run-IsConsistent_from s [] c timely = c
  run-IsConsistent_from s (e ∷ events) c (now, later) =
      run-IsConsistent_from (step date_parse s e) events (step-IsConsistent s e now c) later

  -- Whatever the stream, the polling and the contestant do, in whatever order: if each list that is
  -- loaded is timely, then in the end the two tables agree on each submission that an update is
  -- kept of (it is listed as active, with the status of that update, exactly when the update says
  -- queued or running), and at most 256 updates are kept.
  pub run-IsConsistent :
      (events : List FeedEvent)
      → AllTimely opened events
      → IsConsistent (run date_parse opened events)
  run-IsConsistent events timely =
      run-IsConsistent_from opened events
        (record { agrees = λ id. unfold get in tt; keys = tt; bounded = omega arith }) timely
