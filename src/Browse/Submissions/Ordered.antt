-- ===== src/Browse/Submissions/Ordered.antt =====
-- The order and the verdicts of the submissions that are listed.
use algo_test.Prelude.{
  ◌≤◌, ◌≡◌, Bool, true, false, Bool-cases, inl, inr, List, [], ◌∷◌, All, Text, arith, codes,
}
use mathlib.Core.List.{Perm}
use algo_test.Feed.Types.{SubmissionItem}
use algo_test.Browse.Sorted.{sort_by-Perm, sort_by-IsSorted, sort_by-All, IsSorted}
use algo_test.Browse.Submissions.{
  is_ac, is_wa, is_found, has_verdict, VerdictFilter, all_verdicts, only_accepted, wrong_answer,
  other_verdicts, SubmissionView, SubmissionSortOption, newest, oldest, score_desc, status_asc,
  title_asc, comes_before, filtered_submissions, sorted_submissions,
}

-- The order that an option asks for: that `a` may stand in front of `b`.
abbrev pub IsInOrder :
    (Text → Text → Bool) → SubmissionSortOption → SubmissionItem → SubmissionItem → Type 0
IsInOrder locale_before newest a b = b.timestamp ≤ a.timestamp
IsInOrder locale_before oldest a b = a.timestamp ≤ b.timestamp
IsInOrder locale_before score_desc a b = b.score ≤ a.score
IsInOrder locale_before status_asc a b = locale_before (codes b.status) (codes a.status) ≡ false
IsInOrder locale_before title_asc a b =
    locale_before (codes b.problem_title) (codes a.problem_title) ≡ false

-- Each of the list may stand in front of all that are behind it.
abbrev pub AreInOrder : (Text → Text → Bool) → SubmissionSortOption → List SubmissionItem → Type 0
AreInOrder locale_before option [] = Unit
AreInOrder locale_before option (a ∷ rest) =
    All (IsInOrder locale_before option a) rest × AreInOrder locale_before option rest

-- The verdict is one of those that the filter asks for.
abbrev pub IsOfVerdict : VerdictFilter → SubmissionItem → Type 0
IsOfVerdict all_verdicts sub = Unit
IsOfVerdict only_accepted sub = is_ac (codes sub.status) ≡ true
IsOfVerdict wrong_answer sub = is_wa (codes sub.status) ≡ true
IsOfVerdict other_verdicts sub =
    (is_ac (codes sub.status) ≡ false) × (is_wa (codes sub.status) ≡ false)

has_verdict-IsOfVerdict :
    (filter : VerdictFilter) (sub : SubmissionItem)
    → has_verdict filter (codes sub.status) ≡ true
    → IsOfVerdict filter sub
has_verdict-IsOfVerdict all_verdicts sub h = tt
has_verdict-IsOfVerdict only_accepted sub h = h
has_verdict-IsOfVerdict wrong_answer sub h = h
has_verdict-IsOfVerdict other_verdicts sub h = ground (arith, h)

filtered_submissions-IsOfVerdict :
    (view : SubmissionView) (submissions : List SubmissionItem)
    → All (IsOfVerdict view.status_filter) (filtered_submissions view submissions)
unfolding filtered_submissions
filtered_submissions-IsOfVerdict view [] = tt
filtered_submissions-IsOfVerdict view (sub ∷ rest) =
    elim (Bool-cases (has_verdict view.status_filter (codes sub.status))) [
      | inr other ↦ rw other (elim (Bool-cases (is_found view.search sub)) [
        | inl found ↦ rw found (filtered_submissions-IsOfVerdict view rest)
        | inr lost ↦ rw lost (filtered_submissions-IsOfVerdict view rest)
      ])
      | inl wanted ↦ rw wanted (elim (Bool-cases (is_found view.search sub)) [
        | inl found ↦ rw found (
          has_verdict-IsOfVerdict view.status_filter sub wanted,
          filtered_submissions-IsOfVerdict view rest,
        )
        | inr lost ↦ rw lost (filtered_submissions-IsOfVerdict view rest)
      ])
    ]

module _ (locale_before : Text → Text → Bool) where
  comes_before-asym :
      ((s t : Text) → locale_before s t ≡ true → locale_before t s ≡ false)
      → (option : SubmissionSortOption) (a b : SubmissionItem)
      → comes_before locale_before option a b ≡ true
      → comes_before locale_before option b a ≡ false
  unfolding comes_before
  comes_before-asym asym newest a b h = ground (arith, h)
  comes_before-asym asym oldest a b h = ground (arith, h)
  comes_before-asym asym score_desc a b h = ground (arith, h)
  comes_before-asym asym status_asc a b h = asym (codes a.status) (codes b.status) h
  comes_before-asym asym title_asc a b h = asym (codes a.problem_title) (codes b.problem_title) h

  comes_before-IsInOrder :
      (option : SubmissionSortOption) (a b : SubmissionItem)
      → comes_before locale_before option b a ≡ false
      → IsInOrder locale_before option a b
  unfolding comes_before
  comes_before-IsInOrder newest a b h = ground (arith, h)
  comes_before-IsInOrder oldest a b h = ground (arith, h)
  comes_before-IsInOrder score_desc a b h = ground (arith, h)
  comes_before-IsInOrder status_asc a b h = h
  comes_before-IsInOrder title_asc a b h = h

  IsInOrder-trans :
      ((s t u : Text)
        → locale_before t s ≡ false
        → locale_before u t ≡ false
        → locale_before u s ≡ false)
      → (option : SubmissionSortOption) (a b c : SubmissionItem)
      → IsInOrder locale_before option a b
      → IsInOrder locale_before option b c
      → IsInOrder locale_before option a c
  IsInOrder-trans trans newest a b c h k = omega (arith, h, k)
  IsInOrder-trans trans oldest a b c h k = omega (arith, h, k)
  IsInOrder-trans trans score_desc a b c h k = omega (arith, h, k)
  IsInOrder-trans trans status_asc a b c h k =
      trans (codes a.status) (codes b.status) (codes c.status) h k
  IsInOrder-trans trans title_asc a b c h k =
      trans (codes a.problem_title) (codes b.problem_title) (codes c.problem_title) h k

  map-IsInOrder :
      ((s t u : Text)
        → locale_before t s ≡ false
        → locale_before u t ≡ false
        → locale_before u s ≡ false)
      → (option : SubmissionSortOption) (a b : SubmissionItem) (rest : List SubmissionItem)
      → IsInOrder locale_before option a b
      → All (IsInOrder locale_before option b) rest
      → All (IsInOrder locale_before option a) rest
  map-IsInOrder trans option a b [] h k = tt
  map-IsInOrder trans option a b (c ∷ rest) h (k, ks) =
      (IsInOrder-trans trans option a b c h k, map-IsInOrder trans option a b rest h ks)

  -- Where neighbours are in order, all are.
  IsSorted-AreInOrder :
      ((s t u : Text)
        → locale_before t s ≡ false
        → locale_before u t ≡ false
        → locale_before u s ≡ false)
      → (option : SubmissionSortOption) (subs : List SubmissionItem)
      → IsSorted (comes_before locale_before option) subs
      → AreInOrder locale_before option subs
  IsSorted-AreInOrder trans option [] h = tt
  IsSorted-AreInOrder trans option (a ∷ []) h = (tt, tt)
  IsSorted-AreInOrder trans option (a ∷ b ∷ rest) (h, hs) =
      let (first, others) = IsSorted-AreInOrder trans option (b ∷ rest) hs in
      let front = comes_before-IsInOrder option a b h in
      ((front, map-IsInOrder trans option a b rest front first), (first, others))

  -- If the comparison of texts is asymmetric and negatively transitive, then the listed submissions
  -- are those that the search and the filter leave, none lost and none twice, each of a verdict that
  -- the filter asks for, and of any two of them the first is, as the chosen order says: no older, no
  -- newer, of no lower score, or not behind the other in the order of the status or of the title.
  pub sorted_submissions-AreInOrder :
      ((s t : Text) → locale_before s t ≡ true → locale_before t s ≡ false)
      → ((s t u : Text)
          → locale_before t s ≡ false
          → locale_before u t ≡ false
          → locale_before u s ≡ false)
      → (view : SubmissionView) (submissions : List SubmissionItem)
      → Perm
          (sorted_submissions locale_before view submissions)
          (filtered_submissions view submissions)
        × All (IsOfVerdict view.status_filter) (sorted_submissions locale_before view submissions)
        × AreInOrder locale_before view.sort_by_option
            (sorted_submissions locale_before view submissions)
  unfolding sorted_submissions
  sorted_submissions-AreInOrder asym trans view submissions = (
    sort_by-Perm (comes_before locale_before view.sort_by_option)
        (filtered_submissions view submissions),
    sort_by-All (comes_before locale_before view.sort_by_option) (IsOfVerdict view.status_filter)
        (filtered_submissions view submissions) (filtered_submissions-IsOfVerdict view submissions),
    IsSorted-AreInOrder trans view.sort_by_option _ (
        sort_by-IsSorted (comes_before locale_before view.sort_by_option)
          (comes_before-asym asym view.sort_by_option) (filtered_submissions view submissions)),
  )
