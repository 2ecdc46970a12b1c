-- ===== src/Pages/Cover.antt =====
-- The pages make up the list, and none that is shown is empty.
use native.Mathlib.Nat.{
  div-lt_iff_lt-mul, le-div_iff_mul-le, mul-le-mul_right, add-mul, one-mul, suc-mul, zero-add,
  zero-mul, suc-add,
}
use algo_test.Prelude.{
  length-take, length-drop, ℕ, zero, suc, ◌+◌, ◌-◌, ◌*◌, ◌/◌, ◌≤◌, ◌<◌, ◌≡◌, refl, ap, sym, ◌∙◌,
  min, max, List, [], ◌∷◌, ◌++◌, length, take, drop, arith,
}
use algo_test.Pages.{Paging, page_count, use_pagination, slice_from, first_item_of}

module _ {ℓ} {A : Type ℓ} where
  take-all : (n : ℕ) (xs : List A) → length xs ≤ n → take n xs ≡ xs
  take-all zero [] h = refl
  take-all zero (x ∷ xs) h = ground arith
  take-all (suc n) [] h = refl
  take-all (suc n) (x ∷ xs) h = ap (λ t. x ∷ t) (take-all n xs (omega arith))

  take-nil : (n : ℕ) → take {A = A} n [] ≡ []
  take-nil zero = refl
  take-nil (suc n) = refl

  take-slice : (m n : ℕ) (xs : List A) → take (m + n) xs ≡ take m xs ++ take n (drop m xs)
  take-slice zero n xs = ap (λ k. take k xs) (zero-add n)
  take-slice (suc m) zero [] = take-nil (suc m + 0)
  take-slice (suc m) (suc n) [] = take-nil (suc m + suc n)
  take-slice (suc m) n (x ∷ xs) =
      ap (λ k. take k (x ∷ xs)) (suc-add m n) ∙ ap (λ t. x ∷ t) (take-slice m n xs)

IsBetween : ℕ → ℕ → ℕ → Type 0
IsBetween total size count = (total ≤ count * size) × (0 < total → (count - 1) * size < total)

IsBetween-reaches : (total size count : ℕ) → IsBetween total size count → total ≤ count * size
unfolding IsBetween
IsBetween-reaches total size count b = b.0

IsBetween-before :
    (total size count : ℕ) → IsBetween total size count → 0 < total → (count - 1) * size < total
unfolding IsBetween
IsBetween-before total size count b = b.1

quotient-IsBetween :
    (total size q : ℕ)
    → 0 < size
    → total + (size - 1) < (q + 1) * size
    → q * size ≤ total + (size - 1)
    → IsBetween total size (max 1 q)
unfolding IsBetween
quotient-IsBetween total size zero h less more =
    rw (one-mul size) (omega arith, λ some_left. omega (arith, less))
quotient-IsBetween total size (suc p) h less more =
    let shown : max 1 (suc p) ≡ suc p = omega arith in
    let before : suc p - 1 ≡ p = omega arith in
    let wide : (suc p + 1) * size ≡ suc p * size + size =
      add-mul (suc p) 1 size ∙ ap (λ (k : ℕ). suc p * size + k) (one-mul size) in
    let tall : suc p * size ≡ p * size + size = suc-mul p size in
    rw (shown, before) (omega (arith, less, wide), λ some_left. omega (arith, more, tall))

-- The last page reaches the end, and the one before it does not.
page_count-IsBetween : (total size : ℕ) → 0 < size → IsBetween total size (page_count total size)
unfolding page_count
page_count-IsBetween total size h =
    let q = (total + (size - 1)) / size in
    quotient-IsBetween total size q h ((div-lt_iff_lt-mul h).0 (omega arith))
      ((le-div_iff_mul-le h).0 (omega arith))

page_count-positive : (total size : ℕ) → 0 < page_count total size
unfolding page_count
page_count-positive total size = omega arith

-- The items of the first pages, up to one page.
unfoldable pub pages_up_to {ℓ} : {A : Type ℓ} → List A → ℕ → ℕ → List A
pages_up_to items size zero = []
pages_up_to items size (suc n) =
    pages_up_to items size n
    ++ (use_pagination items (record { page = suc n; page_size = size })).items

pages_up_to-take {ℓ} :
    {A : Type ℓ}
    → (items : List A) (size n : ℕ) → n ≤ page_count (length items) size
    → pages_up_to items size n ≡ take (n * size) items
unfolding pages_up_to use_pagination
pages_up_to-take items size zero h = ap (λ k. take k items) (sym (zero-mul size))
pages_up_to-take items size (suc n) h =
    let page : min (suc n) (page_count (length items) size) ≡ suc n = omega arith in
    let before : suc n - 1 ≡ n = omega arith in
    rw (pages_up_to-take items size n (omega arith), page, before)
      (sym (ap (λ k. take k items) (suc-mul n size) ∙ take-slice (n * size) size items))

-- For a positive page size the pages, one after the other, make up the list.
pub pages_up_to-page_count {ℓ} :
    {A : Type ℓ}
    → (items : List A) (size : ℕ) → 0 < size
    → pages_up_to items size (page_count (length items) size) ≡ items
pages_up_to-page_count items size h =
    let count = page_count (length items) size in
    pages_up_to-take items size count (omega arith)
    ∙ take-all (count * size) items
        (IsBetween-reaches (length items) size count (page_count-IsBetween (length items) size h))

slice_from-filled {ℓ} :
    {A : Type ℓ}
    → (items : List A) (size p : ℕ) → 0 < p
    → 0 < size
    → (p - 1) * size < length items
    → (0 < length (slice_from ((p - 1) * size) size items))
      × (first_item_of (length items) p size + length (slice_from ((p - 1) * size) size items)
          ≡ min (p * size) (length items) + 1)
      × (min (p * size) (length items) ≤ length items)
slice_from-filled items size zero positive h inside = ground arith
slice_from-filled items size (suc k) positive h inside =
    let tall : suc k * size ≡ k * size + size = suc-mul k size in
    let before : suc k - 1 ≡ k = omega arith in
    let within : k * size < length items = rw (sym before) inside in
    let kept = length-take size (drop (k * size) items) in
    let left = length-drop (k * size) items in rw before (ground (arith, within, tall, kept, left))

-- For a positive page size and a page from 1 on, wherever the list has items the page that is shown
-- has items too, even if the page that was chosen lies behind the end; they are as many as the
-- first and the last number that are shown say, and the last number is at most the total.
pub use_pagination-filled {ℓ} :
    {A : Type ℓ}
    → (items : List A) (s : Paging) → 0 < s.page_size
    → 0 < s.page
    → 0 < length items
    → let shown = use_pagination items s in
      (0 < length shown.items)
      × (shown.first_item + length shown.items ≡ shown.last_item + 1)
      × (shown.last_item ≤ shown.total_items)
unfolding use_pagination
use_pagination-filled items s h from some_left =
    let count = page_count (length items) s.page_size in
    let positive = page_count-positive (length items) s.page_size in
    let behind : min s.page count - 1 ≤ count - 1 = omega arith in
    let reached =
      IsBetween-before (length items) s.page_size count
        (page_count-IsBetween (length items) s.page_size h) some_left in
    let inside : (min s.page count - 1) * s.page_size ≤ (count - 1) * s.page_size =
      mul-le-mul_right s.page_size behind in
    slice_from-filled items s.page_size (min s.page count) (omega arith) h (omega arith)
