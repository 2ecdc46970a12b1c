-- ===== src/Pages/Window/Ascending.antt =====
-- The end of the loop of `pageWindow`, and the set of numbers that it gives.
use algo_test.Prelude.{
  ℕ, zero, suc, ◌+◌, ◌-◌, ◌==◌, ◌≤◌, ◌<◌, ◌≡◌, refl, ap, ◌∙◌, true, false, ◌&&◌, ◌||◌, Bool-cases,
  inl, inr, List, [], ◌∷◌, if◌then◌else◌, ltb, leb, length, arith,
}
use algo_test.Pages.Window.{
  has_page, add_page, add_before, add_around, widen, insert_page, sort_pages, first_slots,
}

-- With as much fuel as there are offsets left, the loop ends by its own test: more fuel changes
-- nothing, whatever the page and the numbers of pages and slots are.
pub widen-enough :
    (fuel more page page_count limit offset : ℕ) (slots : List ℕ)
    → page_count < fuel + offset
    → fuel ≤ more
    → widen more page page_count limit offset slots ≡ widen fuel page page_count limit offset slots
unfolding widen
widen-enough zero zero page page_count limit offset slots enough le = refl
widen-enough zero (suc more) page page_count limit offset slots enough le =
    elim (Bool-cases (ltb (length slots) limit && leb offset page_count)) [
      | inl goes ↦ absurd (ground (arith, goes, enough))
      | inr stops ↦ rw (widen, stops) refl
    ]
widen-enough (suc fuel) zero page page_count limit offset slots enough le =
    absurd (omega (arith, le))
widen-enough (suc fuel) (suc more) page page_count limit offset slots enough le =
    ap (λ wider. if ltb (length slots) limit && leb offset page_count then wider else slots)
      (widen-enough fuel more page page_count limit (suc offset)
        (add_around page page_count limit offset slots) (omega (arith, enough)) (omega (arith, le)))

abbrev AreDistinct : List ℕ → Type 0
AreDistinct [] = Unit
AreDistinct (n ∷ slots) = (has_page n slots ≡ false) × AreDistinct slots

-- The numbers of the pages are distinct, and among them are 1, `page` and `page_count`; all are from
-- 1 to `page_count`; and they are at most `limit`.
abbrev pub AreInside : ℕ → List ℕ → Type 0
AreInside page_count [] = Unit
AreInside page_count (n ∷ slots) = (1 ≤ n) × (n ≤ page_count) × AreInside page_count slots

abbrev IsFit : ℕ → ℕ → ℕ → List ℕ → Type 0
IsFit page page_count limit slots =
    AreDistinct slots
    × AreInside page_count slots
    × (length slots ≤ limit)
    × (has_page 1 slots ≡ true)
    × (has_page page slots ≡ true)
    × (has_page page_count slots ≡ true)

add_page-IsFit :
    (page page_count limit n : ℕ) (slots : List ℕ)
    → 1 ≤ n
    → n ≤ page_count
    → length slots < limit
    → IsFit page page_count limit slots
    → IsFit page page_count limit (add_page n slots)
add_page-IsFit page page_count limit n slots above below free
      (distinct, inside, few, first, here, last) =
    elim (Bool-cases (has_page n slots)) [
      | inl known ↦ rw known (distinct, inside, few, first, here, last)
      | inr new ↦ rw new (
        (new, distinct),
        (above, below, inside),
        omega (arith, free),
        ground (arith, first),
        ground (arith, here),
        ground (arith, last),
      )
    ]

add_around-IsFit :
    (page page_count limit offset : ℕ) (slots : List ℕ)
    → 1 ≤ page
    → page ≤ page_count
    → length slots < limit
    → IsFit page page_count limit slots
    → IsFit page page_count limit (add_around page page_count limit offset slots)
add_around-IsFit page page_count limit offset slots above below free fit =
    let before =
      elim (Bool-cases (ltb (offset + 1) page))
        as (λ h. IsFit page page_count limit (add_before page offset slots)) [
          | inl room ↦ rw room (
              add_page-IsFit page page_count limit (page - offset) slots (ground (arith, room))
                (omega (arith, below)) free fit)
          | inr none_left ↦ rw none_left fit
        ] in
    let wider = add_before page offset slots in
    elim (Bool-cases (ltb (length wider) limit && ltb (page + offset) page_count)) [
      | inl room ↦ rw room (
          add_page-IsFit page page_count limit (page + offset) wider (omega (arith, above))
            (ground (arith, room)) (ground (arith, room)) before)
      | inr full ↦ rw full before
    ]

pub widen-IsFit :
    (fuel page page_count limit offset : ℕ) (slots : List ℕ)
    → 1 ≤ page
    → page ≤ page_count
    → IsFit page page_count limit slots
    → IsFit page page_count limit (widen fuel page page_count limit offset slots)
unfolding widen
widen-IsFit zero page page_count limit offset slots above below fit = fit
widen-IsFit (suc fuel) page page_count limit offset slots above below fit =
    elim (Bool-cases (ltb (length slots) limit && leb offset page_count)) [
      | inl goes ↦ rw goes (
          widen-IsFit fuel page page_count limit (suc offset) _ above below (
            add_around-IsFit page page_count limit offset slots above below (ground (arith, goes))
              fit))
      | inr stops ↦ rw stops fit
    ]

pub first_slots-IsFit :
    (page page_count limit : ℕ)
    → 1 ≤ page
    → page ≤ page_count
    → 3 ≤ limit
    → IsFit page page_count limit (first_slots page page_count)
first_slots-IsFit page page_count limit above below room =
    (ground arith, ground arith, ground arith, ground arith, ground arith, ground arith)

-- Each number is greater than the one before it.
abbrev pub IsAbove : ℕ → List ℕ → Type 0
IsAbove n [] = Unit
IsAbove n (m ∷ slots) = n < m

abbrev pub IsAscending : List ℕ → Type 0
IsAscending [] = Unit
IsAscending (n ∷ slots) = IsAbove n slots × IsAscending slots

has_page-insert_page :
    (m n : ℕ) (slots : List ℕ) → has_page m (insert_page n slots) ≡ has_page m (n ∷ slots)
has_page-insert_page m n [] = refl
has_page-insert_page m n (k ∷ rest) = ground (arith, has_page-insert_page m n rest)

pub has_page-sort_pages :
    (m : ℕ) (slots : List ℕ) → has_page m (sort_pages slots) ≡ has_page m slots
has_page-sort_pages m [] = refl
has_page-sort_pages m (n ∷ rest) =
    has_page-insert_page m n (sort_pages rest)
    ∙ ap (λ b. (n == m) || b) (has_page-sort_pages m rest)

insert_page-IsAbove :
    (k n : ℕ) (slots : List ℕ) → k < n → IsAbove k slots → IsAbove k (insert_page n slots)
insert_page-IsAbove k n [] lt above = lt
insert_page-IsAbove k n (m ∷ rest) lt above = elim (Bool-cases (leb n m)) [
  | inl here ↦ rw here lt
  | inr later ↦ rw later above
]

insert_page-IsAscending :
    (n : ℕ) (slots : List ℕ)
    → has_page n slots ≡ false
    → IsAscending slots
    → IsAscending (insert_page n slots)
insert_page-IsAscending n [] new ordered = (tt, tt)
insert_page-IsAscending n (m ∷ rest) new (above, ordered) = elim (Bool-cases (leb n m)) [
  | inl here ↦ rw here (ground (arith, here, new), (above, ordered))
  | inr later ↦ rw later (
    insert_page-IsAbove m n rest (ground (arith, later)) above,
    insert_page-IsAscending n rest (ground (arith, new)) ordered,
  )
]

pub sort_pages-IsAscending : (slots : List ℕ) → AreDistinct slots → IsAscending (sort_pages slots)
sort_pages-IsAscending [] distinct = tt
sort_pages-IsAscending (n ∷ rest) (new, distinct) =
    insert_page-IsAscending n (sort_pages rest) (has_page-sort_pages n rest ∙ new)
      (sort_pages-IsAscending rest distinct)

AreInside-insert_page :
    (page_count n : ℕ) (slots : List ℕ)
    → AreInside page_count (n ∷ slots)
    → AreInside page_count (insert_page n slots)
AreInside-insert_page page_count n [] inside = inside
AreInside-insert_page page_count n (m ∷ rest) (low, high, (least, most, inside)) =
    elim (Bool-cases (leb n m)) [
      | inl here ↦ rw here (low, high, (least, most, inside))
      | inr later ↦
          rw later (least, most, AreInside-insert_page page_count n rest (low, high, inside))
    ]

pub AreInside-sort_pages :
    (page_count : ℕ) (slots : List ℕ)
    → AreInside page_count slots
    → AreInside page_count (sort_pages slots)
AreInside-sort_pages page_count [] inside = tt
AreInside-sort_pages page_count (n ∷ rest) (low, high, inside) =
    AreInside-insert_page page_count n (sort_pages rest)
      (low, high, AreInside-sort_pages page_count rest inside)

length-insert_page : (n : ℕ) (slots : List ℕ) → length (insert_page n slots) ≡ suc (length slots)
length-insert_page n [] = refl
length-insert_page n (m ∷ rest) = ground (arith, length-insert_page n rest)

pub length-sort_pages : (slots : List ℕ) → length (sort_pages slots) ≡ length slots
length-sort_pages [] = refl
length-sort_pages (n ∷ rest) =
    length-insert_page n (sort_pages rest) ∙ ap suc (length-sort_pages rest)
