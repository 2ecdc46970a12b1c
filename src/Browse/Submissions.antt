-- ===== src/Browse/Submissions.antt =====
-- competitor-frontend/src/components/submissions/submissions-client.tsx: the list of submissions,
-- searched, filtered, sorted and cut into pages. `localeCompare` is a parameter.
pub mod Shown
pub mod Ordered
use algo_test.Prelude.{
  ℕ, Bool, true, false, ◌&&◌, ◌||◌, not, List, Text, codes, text_eq, includes, trim, is_blank, ltb,
  select, [], if◌then◌else◌,
}
use algo_test.Feed.Types.{SubmissionItem}
use algo_test.Browse.{sort_by, contains, lower, current_items}

pub data SubmissionSortOption : Type 0 where
  newest oldest score_desc status_asc title_asc : SubmissionSortOption

pub data VerdictFilter : Type 0 where
  all_verdicts only_accepted wrong_answer other_verdicts : VerdictFilter

-- The states of the component.
pub record SubmissionView : Type 0 where
  pub search : Text
  pub status_filter : VerdictFilter
  pub sort_by_option : SubmissionSortOption
  pub current_page : ℕ
  pub page_size : ℕ

abbrev pub first_view : SubmissionView
first_view = record {
  search = [];
  status_filter = all_verdicts;
  sort_by_option = newest;
  current_page = 1;
  page_size = 15;
}

-- What the page offers.
pub data ViewEvent : Type 0 where
  search_changes : Text → ViewEvent
  filter_changes : VerdictFilter → ViewEvent
  sort_changes : SubmissionSortOption → ViewEvent
  page_changes page_size_changes : ℕ → ViewEvent

abbrev pub handle_view : ViewEvent → SubmissionView → SubmissionView
handle_view (search_changes search) view = record view { search = search; current_page = 1 }
handle_view (filter_changes filter) view = record view { status_filter = filter; current_page = 1 }
handle_view (sort_changes option) view = record view { sort_by_option = option; current_page = 1 }
handle_view (page_changes page) view = record view { current_page = page }
handle_view (page_size_changes size) view = record view { page_size = size }

abbrev pub is_found : Text → SubmissionItem → Bool
is_found search sub =
    is_blank (trim search)
    || contains (codes sub.problem_title) search
    || contains (codes sub.team_name) search
    || contains (codes sub.language) search

abbrev pub is_ac : Text → Bool
is_ac status = includes (lower status) (codes "accepted") || text_eq (lower status) (codes "ac")

abbrev pub is_wa : Text → Bool
is_wa status = includes (lower status) (codes "wrong") || text_eq (lower status) (codes "wa")

abbrev pub has_verdict : VerdictFilter → Text → Bool
has_verdict all_verdicts status = true
has_verdict only_accepted status = is_ac status
has_verdict wrong_answer status = is_wa status
has_verdict other_verdicts status = not (is_ac status || is_wa status)

unfoldable pub filtered_submissions : SubmissionView → List SubmissionItem → List SubmissionItem
unfolding trim includes
filtered_submissions view submissions =
    select (λ sub. is_found view.search sub && has_verdict view.status_filter (codes sub.status))
      submissions

module _ (locale_before : Text → Text → Bool) where
  -- Whether the comparison of two submissions is below zero.
  unfoldable pub comes_before : SubmissionSortOption → SubmissionItem → SubmissionItem → Bool
  comes_before newest a b = ltb b.timestamp a.timestamp
  comes_before oldest a b = ltb a.timestamp b.timestamp
  comes_before score_desc a b = ltb b.score a.score
  comes_before status_asc a b = locale_before (codes a.status) (codes b.status)
  comes_before title_asc a b = locale_before (codes a.problem_title) (codes b.problem_title)

  unfoldable pub sorted_submissions : SubmissionView → List SubmissionItem → List SubmissionItem
  unfolding filtered_submissions comes_before
  sorted_submissions view submissions =
      sort_by (comes_before view.sort_by_option) (filtered_submissions view submissions)

  -- The submissions of the page that is shown.
  unfoldable pub shown_submissions : SubmissionView → List SubmissionItem → List SubmissionItem
  unfolding sorted_submissions
  shown_submissions view submissions =
      current_items view.current_page view.page_size (sorted_submissions view submissions)
