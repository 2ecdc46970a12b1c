-- ===== src/Feed/Session/Stale.antt =====
-- A list of submissions that comes after a finished update, and the updates after it.
use algo_test.Prelude.{
  ℕ, ◌≤◌, ◌≡◌, String, Option, some, none, [], ◌∷◌, ◌⊎◌, inl, inr, arith, true, false, truthy, get,
  put, str_eq_refl, Map, str_eq, get-put, ◌++◌, ◌∙◌, refl, All, List,
}
use algo_test.Feed.Types.{
  SubmissionStatus, SubmissionStatusResponse, SubmissionItem, ActiveSubmission,
}
use algo_test.Feed.Progress.{terminal, should_apply_submission_progress}
use algo_test.Feed.Progress.Order.{IsDated, should_apply_dated_iff, should_apply_finished}
use algo_test.Feed.Provider.{FeedState, apply_progress}
use algo_test.Feed.Actions.{
  restored, restored_entry, live_status, restore_active, restore_item, merge_restored,
}
use algo_test.Feed.Actions.Spread.{get-spread}

restored-append :
    (m : Map ActiveSubmission) (before after : List SubmissionItem)
    → restored m (before ++ after) ≡ restored (restored m before) after
unfolding restored
restored-append m [] after = refl
restored-append m (item ∷ before) after =
    restored-append (restore_item item (live_status item.status) m) before after

-- No listed item is of the submission.
abbrev pub IsUnlisted : String → List SubmissionItem → Type 0
IsUnlisted id items = All (λ item. str_eq item.submission_id id ≡ false) items

get-restore_item :
    (id : String) (item : SubmissionItem) (o : Option SubmissionStatus) (m : Map ActiveSubmission)
    → str_eq item.submission_id id ≡ false
    → get id (restore_item item o m) ≡ get id m
get-restore_item id item none m other = refl
get-restore_item id item (some status) m other =
    ground (arith, get-put item.submission_id id (restored_entry item status) m)

get-restored_unlisted :
    (id : String) (m : Map ActiveSubmission) (items : List SubmissionItem)
    → IsUnlisted id items
    → get id (restored m items) ≡ get id m
unfolding restored
get-restored_unlisted id m [] h = refl
get-restored_unlisted id m (item ∷ items) (other, h) =
    get-restored_unlisted id (restore_item item (live_status item.status) m) items h
    ∙ get-restore_item id item (live_status item.status) m other

get-merge_restored :
    (id : String) (m : Map ActiveSubmission) (s : FeedState)
    → get id s.active_submissions ≡ none
    → get id (merge_restored m s).active_submissions ≡ get id m
unfolding get
get-merge_restored id [] s gone = gone
get-merge_restored id (e ∷ m) s gone = get-spread id (e ∷ m) s.active_submissions ∙ rw (gone) refl

latest-merge_restored :
    (m : Map ActiveSubmission) (s : FeedState) → (merge_restored m s).latest ≡ s.latest
latest-merge_restored [] s = refl
latest-merge_restored (e ∷ m) s = refl

module _ (s : FeedState) (before after : List SubmissionItem) (item : SubmissionItem)
    (status : SubmissionStatus) where
  get-restored :
      live_status item.status ≡ some status
      → truthy item.problem_id ≡ true
      → IsUnlisted item.submission_id after
      → get item.submission_id (restored [] (before ++ item ∷ after))
        ≡ some (restored_entry item status)
  unfolding restored
  get-restored live named h =
      rw
        (
          restored-append [] before (item ∷ after),
          live,
          named,
          get-restored_unlisted item.submission_id
              (put item.submission_id (restored_entry item status) (restored [] before)) after h,
          get-put item.submission_id item.submission_id (restored_entry item status)
              (restored [] before),
          str_eq_refl item.submission_id,
        )
        refl

module _ (date_parse : String → Option ℕ) where
  -- The update is of no later attempt: it has no start, or both have one and its own is no later.
  abbrev pub IsOfNoLaterAttempt : SubmissionStatusResponse → SubmissionStatusResponse → Type 0
  IsOfNoLaterAttempt shown next =
      (truthy next.attempt_started_at ≡ false)
      ⊎ ((a b : ℕ) × IsDated date_parse a shown × IsDated date_parse b next × (b ≤ a))

  refused :
      (shown next : SubmissionStatusResponse)
      → terminal shown ≡ true
      → IsOfNoLaterAttempt shown next
      → should_apply_submission_progress date_parse (some shown) next ≡ false
  refused shown next done (inl undated) =
      ground (arith, should_apply_finished date_parse shown next done)
  refused shown next done (inr (a, b, d, d', le)) =
      ground (arith, should_apply_dated_iff date_parse shown next a b d d')

  -- The updates, one after the other.
  unfoldable pub apply_all : List SubmissionStatusResponse → FeedState → FeedState
  apply_all [] s = s
  apply_all (next ∷ more) s = apply_all more (apply_progress date_parse next s)

  apply_progress_refused :
      (id : String) (shown next : SubmissionStatusResponse) (s : FeedState)
      → get id s.latest ≡ some shown
      → terminal shown ≡ true
      → next.submission_id ≡ id
      → IsOfNoLaterAttempt shown next
      → apply_progress date_parse next s ≡ s
  unfolding apply_progress
  apply_progress_refused id shown next s known done same old =
      rw (same, known) (ground (arith, refused shown next done old))

  apply_all_refused :
      (id : String) (shown : SubmissionStatusResponse) (updates : List SubmissionStatusResponse)
      (s : FeedState)
      → get id s.latest ≡ some shown
      → terminal shown ≡ true
      → All (λ next. (next.submission_id ≡ id) × IsOfNoLaterAttempt shown next) updates
      → apply_all updates s ≡ s
  unfolding apply_all
  apply_all_refused id shown [] s known done h = refl
  apply_all_refused id shown (next ∷ more) s known done ((same, old), h) =
      rw (apply_progress_refused id shown next s known done same old)
        (apply_all_refused id shown more s known done h)

  -- Let a finished update of a submission be shown, and the submission be none of the active ones. A
  -- list of submissions that comes then, with an item of it that says queued or running and names
  -- its problem, and no item of it after that one, puts it back among the active ones. Updates of
  -- the submission that come then change nothing, as many as they are, if each of them carries no
  -- start of its attempt, or one that is no later than that of the shown update, both of them
  -- readable.
  pub restore_active_stale :
      (s : FeedState) (before after : List SubmissionItem) (item : SubmissionItem)
      (shown : SubmissionStatusResponse) (updates : List SubmissionStatusResponse)
      (status : SubmissionStatus)
      → get item.submission_id s.latest ≡ some shown
      → terminal shown ≡ true
      → get item.submission_id s.active_submissions ≡ none
      → live_status item.status ≡ some status
      → truthy item.problem_id ≡ true
      → IsUnlisted item.submission_id after
      → All
          (λ next. (next.submission_id ≡ item.submission_id) × IsOfNoLaterAttempt shown next)
          updates
      → (get item.submission_id (restore_active (before ++ item ∷ after) s).active_submissions
          ≡ some (restored_entry item status))
        × (apply_all updates (restore_active (before ++ item ∷ after) s)
            ≡ restore_active (before ++ item ∷ after) s)
  unfolding restore_active
  restore_active_stale s before after item shown updates status known done gone live named h old =
      let m = restored [] (before ++ item ∷ after) in
      (
        get-merge_restored item.submission_id m s gone
            ∙ get-restored s before after item status live named h,
        apply_all_refused item.submission_id shown updates (merge_restored m s)
            (rw (latest-merge_restored m s) known) done old,
      )
