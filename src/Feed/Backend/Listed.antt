-- ===== src/Feed/Backend/Listed.antt =====
-- The submissions that are restored from the list of the backend.
use algo_test.Prelude.{
  ℕ, ◌≡◌, ◌⊎◌, refl, ap, sym, ◌∙◌, String, Option, none, some, List, [], ◌∷◌, map, Map, get, put,
  get-put, get_or_else, subst, truthy, str_eq, str_eq_iff, if◌then◌else◌, Bool-cases, Option-cases,
  inl, inr, Any, All,
}
use algo_test.Feed.Types.{
  SubmissionStatus, SubmissionItem, ActiveSubmission, queued, running, passed, failed,
}
use algo_test.Feed.Actions.{live_status, restored, restore_item, restored_entry}
use algo_test.Feed.Backend.{
  BackendSubmissionItem, taken, status_name, listed_item, list_submissions,
}

-- An entry that is restored comes from an item of the list that is live.
IsRestoredFrom : String → ActiveSubmission → SubmissionItem → Type 0
IsRestoredFrom j entry item =
    (item.submission_id ≡ j)
    × ((status : SubmissionStatus) × (live_status item.status ≡ some status)
        × (entry ≡ restored_entry item status))

get-restore_item :
    (item : SubmissionItem) (live : Option SubmissionStatus) (m : Map ActiveSubmission) (j : String)
    (entry : ActiveSubmission)
    → get j (restore_item item live m) ≡ some entry
    → (get j m ≡ some entry)
      ⊎ ((item.submission_id ≡ j)
          × ((status : SubmissionStatus) × (live ≡ some status)
              × (entry ≡ restored_entry item status)))
get-restore_item item none m j entry h = inl h
get-restore_item item (some status) m j entry h = elim (Bool-cases (truthy item.problem_id)) [
  | inr unnamed ↦
      let kept : restore_item item (some status) m ≡ m = rw unnamed refl in
      inl (sym (ap (get j) kept) ∙ h)
  | inl named ↦
      let added : restore_item item (some status) m
          ≡ put item.submission_id (restored_entry item status) m =
        rw named refl in
      let found =
        sym (get-put item.submission_id j (restored_entry item status) m)
        ∙ sym (ap (get j) added)
        ∙ h in
      elim (Bool-cases (str_eq item.submission_id j)) [
        | inl same ↦
            let shown : Option.some (restored_entry item status) ≡ some entry =
              subst (λ b. (if b then some (restored_entry item status) else get j m) ≡ some entry)
                same found in
            inr ((str_eq_iff item.submission_id j).0 same, (status, refl, cc shown))
        | inr other ↦ inl (
            subst (λ b. (if b then some (restored_entry item status) else get j m) ≡ some entry)
              other found)
      ]
]

restored-from :
    (m : Map ActiveSubmission) (items : List SubmissionItem) (j : String) (entry : ActiveSubmission)
    → get j (restored m items) ≡ some entry
    → (get j m ≡ some entry) ⊎ Any (IsRestoredFrom j entry) items
unfolding restored IsRestoredFrom
restored-from m [] j entry h = inl h
restored-from m (item ∷ items) j entry h =
    elim (restored-from (restore_item item (live_status item.status) m) items j entry h) [
      | inr later ↦ inr (inr later)
      | inl here ↦ elim (get-restore_item item (live_status item.status) m j entry here) [
        | inl before ↦ inl before
        | inr this ↦ inr (inl this)
      ]
    ]

-- The status names that the list gives are read back.
live_status-status_name :
    (given status : SubmissionStatus)
    → live_status (status_name given) ≡ some status
    → given ≡ status
unfolding live_status
live_status-status_name queued status h = cc h
live_status-status_name running status h = cc h
live_status-status_name passed status h = absurd (cc h)
live_status-status_name failed status h = absurd (cc h)

-- A verdict is no name of a status.
abbrev pub HasNoLiveVerdict : BackendSubmissionItem → Type 0
HasNoLiveVerdict item = (v : String) → item.response.verdict ≡ some v → live_status v ≡ none

-- The entry is that of an item of the backend without a verdict, and has its status.
abbrev pub IsLive : String → ActiveSubmission → BackendSubmissionItem → Type 0
IsLive j entry item =
    (item.response.submission_id ≡ j)
    × (item.response.verdict ≡ none)
    × (entry.id ≡ j)
    × (entry.status ≡ item.response.status)

module _ (get_time : String → ℕ) (to_locale_time : String → String) (j : String)
    (entry : ActiveSubmission) where
  listed_item-IsLive :
      (item : BackendSubmissionItem)
      → HasNoLiveVerdict item
      → IsRestoredFrom j entry (listed_item get_time to_locale_time item)
      → IsLive j entry item
  unfolding IsRestoredFrom listed_item
  listed_item-IsLive item plain (same, (status, live, e)) =
      elim (Option-cases item.response.verdict) [
        | inl unjudged ↦
            let read : live_status (status_name item.response.status) ≡ some status =
              ap (λ v. live_status (get_or_else v (status_name item.response.status)))
                (sym unjudged)
              ∙ live in
            (
              same,
              unjudged,
              ap (λ x. x.id) e ∙ same,
              ap (λ x. x.status) e ∙ sym (live_status-status_name item.response.status status read),
            )
        | inr (v, judged) ↦ absurd (
            cc (
              plain v judged,
              ap (λ v. live_status (get_or_else v (status_name item.response.status))) (sym judged)
                  ∙ live,
            ))
      ]

  listed_items-IsLive :
      (items : List BackendSubmissionItem)
      → All HasNoLiveVerdict items
      → Any (IsRestoredFrom j entry) (map (listed_item get_time to_locale_time) items)
      → Any (IsLive j entry) items
  listed_items-IsLive [] plain h = h
  listed_items-IsLive (item ∷ items) (p, plain) (inl this) = inl (listed_item-IsLive item p this)
  listed_items-IsLive (item ∷ items) (p, plain) (inr later) =
      inr (listed_items-IsLive items plain later)

  -- If no verdict in the list of the backend is spelled like a status, then each submission that is
  -- restored from the list as active stands there without a verdict, under the same id and with the
  -- same status.
  pub restored-list_submissions :
      (items : List BackendSubmissionItem)
      → All HasNoLiveVerdict items
      → get j (restored [] (list_submissions get_time to_locale_time (taken (some items))))
        ≡ some entry
      → Any (IsLive j entry) items
  unfolding list_submissions get
  restored-list_submissions items plain h =
      elim (restored-from [] (map (listed_item get_time to_locale_time) items) j entry h) [
        | inl before ↦ absurd (cc before)
        | inr from ↦ listed_items-IsLive items plain from
      ]
