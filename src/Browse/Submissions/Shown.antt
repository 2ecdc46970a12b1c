-- ===== src/Browse/Submissions/Shown.antt =====
-- The page of the submissions that is shown.
use algo_test.Prelude.{
  ℕ, ◌-◌, ◌*◌, ◌<◌, ◌≤◌, ◌≡◌, ap, Bool, List, Text, length, arith, min, length-take-le, zero, suc,
}
use algo_test.Pages.{slice_from, page_count, use_pagination}
use algo_test.Pages.Cover.{use_pagination-filled}
use algo_test.Feed.Types.{SubmissionItem}
use algo_test.Browse.{current_items}
use algo_test.Browse.Sorted.{length-sort_by}
use algo_test.Browse.Submissions.{
  SubmissionView, comes_before, filtered_submissions, sorted_submissions, shown_submissions,
}

-- `(n - 1) * size` and `n * size` are a page apart.
page_apart : (n size : ℕ) → 0 < n → n * size - (n - 1) * size ≡ size
page_apart zero size from_one = absurd (omega (arith, from_one))
page_apart (suc n) size from_one = grind arith

current_items-use_pagination {ℓ} :
    {A : Type ℓ}
    → (page size : ℕ) (items : List A) → 0 < page
    → current_items page size items
      ≡ (use_pagination items (record { page = page; page_size = size })).items
unfolding use_pagination page_count
current_items-use_pagination page size items from_one =
    let current = min page (page_count (length items) size) in
    let valid : 0 < current = omega (arith, from_one) in
    ap (λ n. slice_from ((current - 1) * size) n items) (page_apart current size valid)

module _ (locale_before : Text → Text → Bool) where
  -- Whatever page is chosen, from 1 on, and whatever page size: while the search and the filter leave
  -- some submission, the page that is shown is not empty, and it is no longer than the page size.
  pub shown_submissions-filled :
      (view : SubmissionView) (submissions : List SubmissionItem)
      → 0 < view.current_page
      → 0 < view.page_size
      → 0 < length (filtered_submissions view submissions)
      → (0 < length (shown_submissions locale_before view submissions))
        × (length (shown_submissions locale_before view submissions) ≤ view.page_size)
  unfolding shown_submissions sorted_submissions use_pagination
  shown_submissions-filled view submissions from_one wide some_left =
      let sorted = sorted_submissions locale_before view submissions in
      let kept : 0 < length sorted =
        rw
          (length-sort_by (comes_before locale_before view.sort_by_option)
            (filtered_submissions view submissions))
          some_left in
      let same = current_items-use_pagination view.current_page view.page_size sorted from_one in
      let (filled, first, last) =
        use_pagination-filled sorted
          (record { page = view.current_page; page_size = view.page_size }) wide from_one kept in
      rw same (filled, length-take-le view.page_size _)
