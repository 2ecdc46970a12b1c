-- ===== src/Browse.antt =====
-- The lists of the competitor's portal, which are searched, sorted and cut into pages: what
-- competitor-frontend/src/components/challenges/challenges-list-client.tsx,
-- submissions/submissions-client.tsx and leaderboard/leaderboard-client.tsx beside it share.
pub mod Sorted
pub mod Challenges
pub mod Submissions
pub mod Standings
use algo_test.Prelude.{
  ℕ, ◌-◌, ◌*◌, min, Bool, List, [], ◌∷◌, length, if◌then◌else◌, Text, map, to_lower, includes, trim,
  is_blank, not, ◌&&◌,
}
use algo_test.Pages.{page_count, slice_from}

-- `sort` with a comparison function, where `before a b` says that the result for a and b is below
-- zero. It is stable.
module _ {ℓ} {A : Type ℓ} (before : A → A → Bool) where
  abbrev pub insert_by : A → List A → List A
  insert_by x [] = x ∷ []
  insert_by x (y ∷ rest) =
      let later = insert_by x rest in if before y x then y ∷ later else x ∷ y ∷ rest

  abbrev pub sort_by : List A → List A
  sort_by [] = []
  sort_by (x ∷ rest) = insert_by x (sort_by rest)

-- `list.slice((current - 1) * size, current * size)` for the current page, at most the last one.
abbrev pub current_items {ℓ} : {A : Type ℓ} → ℕ → ℕ → List A → List A
current_items current_page page_size items =
    let current = min current_page (page_count (length items) page_size) in
    slice_from ((current - 1) * page_size) (current * page_size - (current - 1) * page_size) items

abbrev pub lower : Text → Text
lower s = map to_lower s

-- `s.toLowerCase().includes(search.toLowerCase())`
abbrev pub contains : Text → Text → Bool
contains s search = includes (lower s) (lower search)
