-- ===== src/Pages.antt =====
-- `usePagination` and `useServerPagination` of admin-frontend/src/hooks/use-pagination.ts, for page
-- sizes that are positive and pages from 1 on, the only ones that `setPage` sets.
pub mod Cover
pub mod Window
use algo_test.Prelude.{
  ℕ, ◌+◌, ◌-◌, ◌*◌, ◌/◌, ◌==◌, min, max, List, length, take, drop, if◌then◌else◌,
}

-- The two states of the hook.
pub record Paging : Type 0 where
  pub page : ℕ
  pub page_size : ℕ

pub record PaginationState {ℓ} (A : Type ℓ) : Type ℓ where
  pub page : ℕ
  pub page_size : ℕ
  pub page_count : ℕ
  pub total_items : ℕ
  pub first_item : ℕ
  pub last_item : ℕ
  pub items : List A

-- `Math.max(1, Math.ceil(total / pageSize))`
unfoldable pub page_count : ℕ → ℕ → ℕ
page_count total page_size = max 1 ((total + (page_size - 1)) / page_size)

abbrev pub first_item_of : ℕ → ℕ → ℕ → ℕ
first_item_of total page page_size = if total == 0 then 0 else (page - 1) * page_size + 1

-- `items.slice(start, start + size)`
abbrev pub slice_from {ℓ} : {A : Type ℓ} → ℕ → ℕ → List A → List A
slice_from start size items = take size (drop start items)

-- What the hook returns for the items.
unfoldable pub use_pagination {ℓ} : {A : Type ℓ} → List A → Paging → PaginationState A
unfolding page_count
use_pagination all_items s =
    let total = length all_items in
    let count = page_count total s.page_size in
    let safe_page = min s.page count in
    record {
      page = safe_page;
      page_size = s.page_size;
      page_count = count;
      total_items = total;
      first_item = first_item_of total safe_page s.page_size;
      last_item = min (safe_page * s.page_size) total;
      items = slice_from ((safe_page - 1) * s.page_size) s.page_size all_items;
    }

-- The effect that clamps the page.
unfoldable pub clamp_page {ℓ} : {A : Type ℓ} → List A → Paging → Paging
unfolding use_pagination
clamp_page all_items s = record s { page = (use_pagination all_items s).page }

unfoldable pub set_page : ℕ → ℕ → Paging → Paging
set_page total next s = record s { page = min (max 1 next) (page_count total s.page_size) }

unfoldable pub set_page_size : ℕ → Paging → Paging
set_page_size size s = record { page = 1; page_size = size }

-- The page of items that the server has cut, in `useServerPagination`.
unfoldable pub use_server_pagination {ℓ} : {A : Type ℓ} → List A → ℕ → ℕ → ℕ → PaginationState A
unfolding page_count
use_server_pagination page_items total page page_size =
    let count = page_count total page_size in
    let safe_page = min (max 1 page) count in
    record {
      page = safe_page;
      page_size = page_size;
      page_count = count;
      total_items = total;
      first_item = first_item_of total safe_page page_size;
      last_item = min (safe_page * page_size) total;
      items = page_items;
    }
