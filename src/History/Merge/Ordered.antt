-- ===== src/History/Merge/Ordered.antt =====
-- What the merged history keeps, and in which order.
use algo_test.Prelude.{
  ℕ, suc, ◌+◌, ◌≤◌, ◌≡◌, refl, ◌∙◌, subst, Bool, false, Bool-cases, Option-cases, inl, inr, Option,
  none, some, List, [], ◌∷◌, ◌++◌, if◌then◌else◌, Text, codes, text_eq, text_eq_iff, is_blank, find,
  take, length-take-le, get_or_else, arith, ltb, zero,
}
use algo_test.Feed.Types.{SubmissionItem}
use algo_test.History.{Snapshot, is_of}
use algo_test.History.Kept.{
  IsKept, count_of, HasCountsOf, update_first-HasCountsOf, count_of-take-le,
}
use algo_test.History.Merge.{
  with_submission, is_changed, server_snapshot, merge_one, merge_all, insert, sort,
  merge_server_submissions,
}

-- At most one snapshot of each submission.
abbrev HasOneEach : List Snapshot → Type 0
HasOneEach xs = (id : Text) → is_blank id ≡ false → count_of id xs ≤ 1

count_of-append :
    (id : Text) (xs ys : List Snapshot) → count_of id (xs ++ ys) ≡ count_of id xs + count_of id ys
unfolding count_of
count_of-append id [] ys = omega arith
count_of-append id (s ∷ xs) ys = ground (arith, count_of-append id xs ys)

find-eq-none : (id : Text) (xs : List Snapshot) → find (is_of id) xs ≡ none → count_of id xs ≡ 0
unfolding count_of
find-eq-none id [] h = refl
find-eq-none id (s ∷ xs) h = elim (Bool-cases (is_of id s)) [
  | inl this ↦ absurd (cc (subst (λ b. (if b then some s else find (is_of id) xs) ≡ none) this h))
  | inr other ↦
      rw other (
        find-eq-none id xs (subst (λ b. (if b then some s else find (is_of id) xs) ≡ none) other h))
]

get_or_else-HasOneEach :
    (merged : List Snapshot) (o : Option (List Snapshot))
    → HasCountsOf merged o
    → HasOneEach merged
    → HasOneEach (get_or_else o merged)
get_or_else-HasOneEach merged none h one = one
get_or_else-HasOneEach merged (some updated) (l, c) one = λ id filled. rw (c id) (one id filled)

appended-HasOneEach :
    (now : ℕ) (sub : SubmissionItem) (merged : List Snapshot)
    → find (is_of (codes sub.submission_id)) merged ≡ none
    → HasOneEach merged
    → HasOneEach (merged ++ server_snapshot now sub ∷ [])
unfolding count_of
appended-HasOneEach now sub merged absent one = λ id filled.
    let sum = count_of-append id merged (server_snapshot now sub ∷ []) in
    elim (Bool-cases (text_eq (codes sub.submission_id) id)) [
      | inl this ↦
          let same : codes sub.submission_id ≡ id =
            (text_eq_iff (codes sub.submission_id) id).0 this in
          let free : count_of id merged ≡ 0 =
            subst (λ (i : Text). count_of i merged ≡ 0) same
              (find-eq-none (codes sub.submission_id) merged absent) in
          rw (sum, free, this) (omega arith)
      | inr other ↦ rw (sum, other) (omega (arith, one id filled))
    ]

merge_one-HasOneEach :
    (now : ℕ) (sub : SubmissionItem) (merged : List Snapshot) (has_changes : Bool)
    → HasOneEach merged
    → HasOneEach (merge_one now sub merged has_changes).0
unfolding merge_one
merge_one-HasOneEach now sub merged has_changes one =
    elim (Bool-cases (is_blank (codes sub.submission_id))) [
      | inl nameless ↦ rw nameless one
      | inr named ↦ elim (Option-cases (find (is_of (codes sub.submission_id)) merged)) [
        | inl absent ↦ rw (named, absent) (appended-HasOneEach now sub merged absent one)
        | inr (existing, found) ↦
            elim (Bool-cases (is_changed (with_submission sub existing) existing)) [
              | inl changed ↦
                  rw (named, found, changed)
                    (get_or_else-HasOneEach merged _
                      (update_first-HasCountsOf (with_submission sub) (λ s. refl)
                        (codes sub.submission_id) merged)
                      one)
              | inr same ↦ rw (named, found, same) one
            ]
      ]
    ]

merge_all-HasOneEach :
    (now : ℕ) (subs : List SubmissionItem) (merged : List Snapshot) (has_changes : Bool)
    → HasOneEach merged
    → HasOneEach (merge_all now subs merged has_changes).0
unfolding merge_all
merge_all-HasOneEach now [] merged has_changes one = one
merge_all-HasOneEach now (sub ∷ subs) merged has_changes one =
    let next = merge_one now sub merged has_changes in
    merge_all-HasOneEach now subs next.0 next.1
      (merge_one-HasOneEach now sub merged has_changes one)

count_of-insert :
    (id : Text) (s : Snapshot) (xs : List Snapshot)
    → count_of id (insert s xs) ≡ count_of id (s ∷ xs)
unfolding count_of
count_of-insert id s [] = refl
count_of-insert id s (other ∷ rest) = ground (arith, count_of-insert id s rest)

count_of-sort : (id : Text) (xs : List Snapshot) → count_of id (sort xs) ≡ count_of id xs
unfolding count_of sort
count_of-sort id [] = refl
count_of-sort id (s ∷ xs) = count_of-insert id s (sort xs) ∙ ground (arith, count_of-sort id xs)

-- No snapshot is later than the one before it.
abbrev IsBelow : ℕ → List Snapshot → Type 0
IsBelow n [] = Unit
IsBelow n (s ∷ xs) = s.at ≤ n

abbrev pub IsLatestFirst : List Snapshot → Type 0
IsLatestFirst [] = Unit
IsLatestFirst (s ∷ xs) = IsBelow s.at xs × IsLatestFirst xs

insert-IsBelow :
    (n : ℕ) (s : Snapshot) (xs : List Snapshot) → s.at ≤ n → IsBelow n xs → IsBelow n (insert s xs)
insert-IsBelow n s [] le below = le
insert-IsBelow n s (other ∷ rest) le below = elim (Bool-cases (ltb s.at other.at)) [
  | inl earlier ↦ rw earlier below
  | inr later ↦ rw later le
]

insert-IsLatestFirst :
    (s : Snapshot) (xs : List Snapshot) → IsLatestFirst xs → IsLatestFirst (insert s xs)
insert-IsLatestFirst s [] ordered = (tt, tt)
insert-IsLatestFirst s (other ∷ rest) (below, ordered) = elim (Bool-cases (ltb s.at other.at)) [
  | inl earlier ↦ rw earlier (
    insert-IsBelow other.at s rest (ground (arith, earlier)) below,
    insert-IsLatestFirst s rest ordered,
  )
  | inr later ↦ rw later (ground (arith, later), (below, ordered))
]

sort-IsLatestFirst : (xs : List Snapshot) → IsLatestFirst (sort xs)
unfolding sort
sort-IsLatestFirst [] = tt
sort-IsLatestFirst (s ∷ xs) = insert-IsLatestFirst s (sort xs) (sort-IsLatestFirst xs)

take-IsLatestFirst : (n : ℕ) (xs : List Snapshot) → IsLatestFirst xs → IsLatestFirst (take n xs)
take-IsLatestFirst zero xs ordered = tt
take-IsLatestFirst (suc n) [] ordered = tt
take-IsLatestFirst (suc zero) (s ∷ xs) (below, ordered) = (tt, tt)
take-IsLatestFirst (suc (suc n)) (s ∷ []) (below, ordered) = (tt, tt)
take-IsLatestFirst (suc (suc n)) (s ∷ t ∷ xs) (below, ordered) =
    (below, take-IsLatestFirst (suc n) (t ∷ xs) ordered)

cut-IsKept :
    (now : ℕ) (subs : List SubmissionItem) (current : List Snapshot)
    → HasOneEach current
    → IsKept (take 50 (sort (merge_all now subs current false).0))
cut-IsKept now subs current one =
    let merged = (merge_all now subs current false).0 in
    (
      length-take-le 50 (sort merged),
      λ id filled. omega (
        arith,
        count_of-take-le id 50 (sort merged),
        count_of-sort id merged,
        merge_all-HasOneEach now subs current false one id filled,
      ),
    )

pub merged-IsKept :
    (now : ℕ) (current : List Snapshot) (subs : List SubmissionItem)
    → IsKept current
    → IsKept (merge_server_submissions now current subs)
unfolding merge_server_submissions
merged-IsKept now current subs (few, one) = elim (Bool-cases (merge_all now subs current false).1) [
  | inl changed ↦ rw (merge_server_submissions, changed) (cut-IsKept now subs current one)
  | inr same ↦ rw (merge_server_submissions, same) (few, one)
]

-- When the snapshots are at most 50, with at most one of each submission, and the latest comes first,
-- then that stays so, whatever submissions the server lists, in whatever order and how often.
pub merge_server_submissions-IsKept :
    (now : ℕ) (current : List Snapshot) (subs : List SubmissionItem)
    → IsKept current
    → IsLatestFirst current
    → IsKept (merge_server_submissions now current subs)
      × IsLatestFirst (merge_server_submissions now current subs)
unfolding merge_server_submissions
merge_server_submissions-IsKept now current subs kept ordered = (
  merged-IsKept now current subs kept,
  elim (Bool-cases (merge_all now subs current false).1) [
    | inl changed ↦
        rw (merge_server_submissions, changed)
          (take-IsLatestFirst 50 _ (sort-IsLatestFirst (merge_all now subs current false).0))
    | inr same ↦ rw (merge_server_submissions, same) ordered
  ],
)
