-- ===== src/Pages/Window/Shown.antt =====
-- The page numbers that `pageWindow` shows.
use algo_test.Prelude.{
  ℕ, zero, suc, ◌+◌, ◌-◌, ◌==◌, ◌≤◌, ◌<◌, ◌≡◌, refl, ap, sym, ◌∙◌, true, false, Bool-cases, inl,
  inr, Option, none, some, List, [], ◌∷◌, ltb, leb, length, arith, map,
}
use algo_test.Pages.Window.{
  has_page, widen, sort_pages, with_ellipses, from_first, count_up, first_slots, page_window,
}
use algo_test.Pages.Window.Ascending.{
  IsAbove, IsAscending, AreInside, sort_pages-IsAscending, AreInside-sort_pages, length-sort_pages,
  has_page-sort_pages, widen-IsFit, first_slots-IsFit,
}

-- The numbers without the ellipses.
abbrev pub numbers : List (Option ℕ) → List ℕ
numbers [] = []
numbers (none ∷ window) = numbers window
numbers (some n ∷ window) = n ∷ numbers window

-- After the number `before`, each number is the next one, or a greater one behind an ellipsis.
abbrev pub IsSpaced : ℕ → List (Option ℕ) → Type 0
IsSpaced before [] = Unit
IsSpaced before (some n ∷ window) = (n ≡ suc before) × IsSpaced n window
IsSpaced before (none ∷ some n ∷ window) = (suc before < n) × IsSpaced n window
IsSpaced before (none ∷ none ∷ window) = ⊥
IsSpaced before (none ∷ []) = ⊥

-- The first thing that is shown is the number 1.
abbrev BeginsWithOne : List (Option ℕ) → Type 0
BeginsWithOne [] = ⊥
BeginsWithOne (none ∷ window) = ⊥
BeginsWithOne (some n ∷ window) = n ≡ 1

-- A window for `page` of `page_count` pages: it begins with 1, an ellipsis stands exactly where
-- numbers are left out, it shows `page` and the last page and no more than `most` numbers, and none
-- is above `page_count`.
abbrev pub IsWindow : ℕ → ℕ → ℕ → List (Option ℕ) → Type 0
IsWindow page page_count most window =
    BeginsWithOne window
    × IsSpaced 0 window
    × (has_page page (numbers window) ≡ true)
    × (has_page page_count (numbers window) ≡ true)
    × (length (numbers window) ≤ most)
    × AreInside page_count (numbers window)

with_ellipses-IsSpaced :
    (before : ℕ) (slots : List ℕ)
    → IsAbove before slots
    → IsAscending slots
    → IsSpaced before (with_ellipses before slots)
with_ellipses-IsSpaced before [] above ordered = tt
with_ellipses-IsSpaced before (n ∷ rest) above (next, ordered) =
    elim (Bool-cases (ltb 1 (n - before))) [
      | inl gap ↦ rw gap (ground (arith, gap), with_ellipses-IsSpaced n rest next ordered)
      | inr close ↦
          rw close (ground (arith, close, above), with_ellipses-IsSpaced n rest next ordered)
    ]

numbers-with_ellipses : (before : ℕ) (slots : List ℕ) → numbers (with_ellipses before slots) ≡ slots
numbers-with_ellipses before [] = refl
numbers-with_ellipses before (n ∷ rest) = elim (Bool-cases (ltb 1 (n - before))) [
  | inl gap ↦ rw gap (ap (λ r. n ∷ r) (numbers-with_ellipses n rest))
  | inr close ↦ rw close (ap (λ r. n ∷ r) (numbers-with_ellipses n rest))
]

numbers-from_first : (slots : List ℕ) → numbers (from_first slots) ≡ slots
numbers-from_first [] = refl
numbers-from_first (n ∷ rest) = ap (λ r. n ∷ r) (numbers-with_ellipses n rest)

-- What is below the first number is not among them.
has_page-above :
    (m n : ℕ) (slots : List ℕ)
    → m < n
    → IsAbove n slots
    → IsAscending slots
    → has_page m (n ∷ slots) ≡ false
has_page-above m n [] lt above ordered = ground (arith, lt)
has_page-above m n (k ∷ rest) lt above (next, ordered) =
    ground (arith, lt, has_page-above m k rest (omega (arith, lt, above)) next ordered)

first_one :
    (n : ℕ) (rest : List ℕ) → IsAscending (n ∷ rest) → 1 ≤ n → has_page 1 (n ∷ rest) ≡ true → n ≡ 1
first_one n rest (next, ordered) low first = elim (Bool-cases (ltb 1 n)) [
  | inl above ↦
      absurd (cc (sym first ∙ has_page-above 1 n rest (ground (arith, above)) next ordered))
  | inr one ↦ ground (arith, one, low)
]

from_first-BeginsWithOne :
    (page_count : ℕ) (slots : List ℕ)
    → IsAscending slots
    → AreInside page_count slots
    → has_page 1 slots ≡ true
    → BeginsWithOne (from_first slots)
from_first-BeginsWithOne page_count [] ordered inside first = absurd (cc first)
from_first-BeginsWithOne page_count (n ∷ rest) ordered (low, high, inside) first =
    first_one n rest ordered low first

from_first-IsSpaced :
    (page_count : ℕ) (slots : List ℕ)
    → IsAscending slots
    → AreInside page_count slots
    → has_page 1 slots ≡ true
    → IsSpaced 0 (from_first slots)
from_first-IsSpaced page_count [] ordered inside first = tt
from_first-IsSpaced page_count (n ∷ rest) (next, ordered) (low, high, inside) first =
    (first_one n rest (next, ordered) low first, with_ellipses-IsSpaced n rest next ordered)

numbers-map : (slots : List ℕ) → numbers (map (λ n. some n) slots) ≡ slots
numbers-map [] = refl
numbers-map (n ∷ rest) = ap (λ r. n ∷ r) (numbers-map rest)

count_up-IsSpaced : (before n : ℕ) → IsSpaced before (map (λ m. some m) (count_up before n))
count_up-IsSpaced before zero = tt
count_up-IsSpaced before (suc n) = (refl, count_up-IsSpaced (suc before) n)

length-count_up : (before n : ℕ) → length (count_up before n) ≡ n
length-count_up before zero = refl
length-count_up before (suc n) = ap suc (length-count_up (suc before) n)

has_page-count_up :
    (m before n : ℕ) → before < m → m ≤ before + n → has_page m (count_up before n) ≡ true
has_page-count_up m before zero lt le = absurd (omega (arith, lt, le))
has_page-count_up m before (suc n) lt le = elim (Bool-cases (suc before == m)) [
  | inl here ↦ rw here refl
  | inr later ↦
      rw later (has_page-count_up m (suc before) n (ground (arith, later, lt)) (omega (arith, le)))
]

AreInside-count_up :
    (page_count before n : ℕ) → before + n ≤ page_count → AreInside page_count (count_up before n)
AreInside-count_up page_count before zero le = tt
AreInside-count_up page_count before (suc n) le = (
  omega arith,
  omega (arith, le),
  AreInside-count_up page_count (suc before) n (omega (arith, le)),
)

count_up-BeginsWithOne : (n : ℕ) → 1 ≤ n → BeginsWithOne (map (λ m. some m) (count_up 0 n))
count_up-BeginsWithOne zero some_page = absurd (omega (arith, some_page))
count_up-BeginsWithOne (suc n) some_page = refl

all-IsWindow :
    (page page_count most : ℕ)
    → 1 ≤ page
    → page ≤ page_count
    → page_count ≤ most
    → IsWindow page page_count most (map (λ n. some n) (count_up 0 page_count))
all-IsWindow page page_count most above below few = (
  count_up-BeginsWithOne page_count (omega (arith, above, below)),
  count_up-IsSpaced 0 page_count,
  rw (numbers-map (count_up 0 page_count))
      (has_page-count_up page 0 page_count above (omega (arith, below))),
  rw (numbers-map (count_up 0 page_count))
      (has_page-count_up page_count 0 page_count (omega (arith, above, below)) (omega arith)),
  rw (numbers-map (count_up 0 page_count), length-count_up 0 page_count) few,
  rw (numbers-map (count_up 0 page_count))
      (AreInside-count_up page_count 0 page_count (omega arith)),
)

-- For a page from 1 to the number of pages, and at least five slots, the numbers that are shown begin
-- with 1 and ascend, with an ellipsis exactly where some are left out; the page and the last page
-- are among them; and they are no more than the slots, and none is above the number of pages.
pub page_window-IsWindow :
    (page page_count max_slots : ℕ)
    → 1 ≤ page
    → page ≤ page_count
    → 5 ≤ max_slots
    → IsWindow page page_count max_slots (page_window page page_count max_slots)
unfolding page_window
page_window-IsWindow page page_count max_slots above below room =
    elim (Bool-cases (leb page_count max_slots)) [
      | inl few ↦ rw few (all-IsWindow page page_count max_slots above below (ground (arith, few)))
      | inr many ↦
          let limit = max_slots - 2 in
          let slots = widen page_count page page_count limit 1 (first_slots page page_count) in
          let (distinct, inside, most, first, here, last) =
            widen-IsFit page_count page page_count limit 1 (first_slots page page_count) above below
              (first_slots-IsFit page page_count limit above below (omega (arith, room))) in
          let sorted = sort_pages slots in
          rw many (
            from_first-BeginsWithOne page_count sorted (sort_pages-IsAscending slots distinct)
                (AreInside-sort_pages page_count slots inside)
                (has_page-sort_pages 1 slots ∙ first),
            from_first-IsSpaced page_count sorted (sort_pages-IsAscending slots distinct)
                (AreInside-sort_pages page_count slots inside)
                (has_page-sort_pages 1 slots ∙ first),
            rw (numbers-from_first sorted) (has_page-sort_pages page slots ∙ here),
            rw (numbers-from_first sorted) (has_page-sort_pages page_count slots ∙ last),
            rw (numbers-from_first sorted, length-sort_pages slots) (omega (arith, most)),
            rw (numbers-from_first sorted) (AreInside-sort_pages page_count slots inside),
          )
    ]
