-- ===== src/Pages/Window.antt =====
-- `pageWindow` of admin-frontend/src/hooks/use-pagination.ts: the page numbers to show, with `none`
-- for an ellipsis. The loop runs on fuel, and the number of pages is enough.
pub mod Ascending
pub mod Shown
use algo_test.Prelude.{
  ℕ, zero, suc, ◌+◌, ◌-◌, ◌==◌, Bool, true, false, ◌&&◌, Option, none, some, List, [], ◌∷◌,
  if◌then◌else◌, any, ltb, leb, length, map,
}

abbrev pub has_page : ℕ → List ℕ → Bool
has_page n slots = any (λ m. m == n) slots

-- A number is added to the set, which lists the latest first; its order is not looked at.
abbrev pub add_page : ℕ → List ℕ → List ℕ
add_page n slots = if has_page n slots then slots else n ∷ slots

-- `page - offset > 1`, where the difference may be below zero.
abbrev add_before : ℕ → ℕ → List ℕ → List ℕ
add_before page offset slots =
    if ltb (offset + 1) page then add_page (page - offset) slots else slots

abbrev add_after : ℕ → ℕ → ℕ → ℕ → List ℕ → List ℕ
add_after page page_count limit offset slots =
    if ltb (length slots) limit && ltb (page + offset) page_count
    then add_page (page + offset) slots
    else slots

-- The body of the loop.
abbrev pub add_around : ℕ → ℕ → ℕ → ℕ → List ℕ → List ℕ
add_around page page_count limit offset slots =
    add_after page page_count limit offset (add_before page offset slots)

-- The loop from this offset on, up to a set of `limit` numbers.
unfoldable pub widen : ℕ → ℕ → ℕ → ℕ → ℕ → List ℕ → List ℕ
widen zero page page_count limit offset slots = slots
widen (suc fuel) page page_count limit offset slots =
    let wider =
      widen fuel page page_count limit (suc offset)
        (add_around page page_count limit offset slots) in
    if ltb (length slots) limit && leb offset page_count then wider else slots

-- `[...slots].sort((a, b) => a - b)`
abbrev pub insert_page : ℕ → List ℕ → List ℕ
insert_page n [] = n ∷ []
insert_page n (m ∷ rest) =
    let later = insert_page n rest in if leb n m then n ∷ m ∷ rest else m ∷ later

abbrev pub sort_pages : List ℕ → List ℕ
sort_pages [] = []
sort_pages (n ∷ rest) = insert_page n (sort_pages rest)

-- The ordered numbers after the number `before`, with an ellipsis in each gap.
abbrev pub with_ellipses : ℕ → List ℕ → List (Option ℕ)
with_ellipses before [] = []
with_ellipses before (n ∷ rest) =
    let later = some n ∷ with_ellipses n rest in if ltb 1 (n - before) then none ∷ later else later

abbrev pub from_first : List ℕ → List (Option ℕ)
from_first [] = []
from_first (n ∷ rest) = some n ∷ with_ellipses n rest

-- 1, 2, …: the numbers after `before`.
abbrev pub count_up : ℕ → ℕ → List ℕ
count_up before zero = []
count_up before (suc n) = suc before ∷ count_up (suc before) n

abbrev pub first_slots : ℕ → ℕ → List ℕ
first_slots page page_count = add_page page (add_page page_count (add_page 1 []))

unfoldable pub page_window : ℕ → ℕ → ℕ → List (Option ℕ)
unfolding widen
page_window page page_count max_slots =
    if leb page_count max_slots
    then map (λ n. some n) (count_up 0 page_count)
    else from_first (
        sort_pages
          (widen page_count page page_count (max_slots - 2) 1 (first_slots page page_count)))
