-- ===== src/History/Kept.antt =====
-- How many snapshots are kept, and for which submissions.
use algo_test.Prelude.{
  text_eq_iff, ℕ, ◌≤◌, ◌≡◌, refl, ap, subst, ◌∙◌, Bool, true, false, not, Option, none, some, List,
  [], ◌∷◌, arith, length, take, length-take-le, if◌then◌else◌, Text, suc, zero, Bool-cases, inl,
  inr, ◌&&◌, is_some, is_blank, text_eq,
}
use algo_test.History.{
  Snapshot, SnapshotTrigger, Extra, is_of, present_id, with_extra, update_first, add_snapshot,
  record_snapshot, record_of, is_trigger, is_autosaved, is_on_top, autosave,
}

-- The number of snapshots of a submission.
unfoldable pub count_of : Text → List Snapshot → ℕ
count_of id [] = 0
count_of id (s ∷ rest) = if is_of id s then suc (count_of id rest) else count_of id rest

-- At most 50 snapshots are kept, and at most one of each submission.
abbrev pub IsKept : List Snapshot → Type 0
IsKept xs = (length xs ≤ 50) × ((id : Text) → is_blank id ≡ false → count_of id xs ≤ 1)

abbrev pub HasCountsOf : List Snapshot → Option (List Snapshot) → Type 0
HasCountsOf current none = Unit
HasCountsOf current (some updated) =
    (length updated ≡ length current) × ((id : Text) → count_of id updated ≡ count_of id current)

abbrev extend : Snapshot → Option (List Snapshot) → Option (List Snapshot)
extend s none = none
extend s (some kept) = some (s ∷ kept)

HasCountsOf-extend :
    (s : Snapshot) (rest : List Snapshot) (o : Option (List Snapshot))
    → HasCountsOf rest o
    → HasCountsOf (s ∷ rest) (extend s o)
unfolding count_of
HasCountsOf-extend s rest none h = tt
HasCountsOf-extend s rest (some kept) (l, c) = (ap suc l, λ id. rw (c id) refl)

pub update_first-HasCountsOf :
    (f : Snapshot → Snapshot)
    → ((s : Snapshot) → (f s).submission_id ≡ s.submission_id)
    → (own : Text) (current : List Snapshot) → HasCountsOf current (update_first f own current)
unfolding update_first
update_first-HasCountsOf f same own [] = tt
update_first-HasCountsOf f same own (s ∷ rest) = elim (Bool-cases (is_of own s)) [
  | inl e ↦ rw e (refl, λ id. unfold count_of in rw (same s) refl)
  | inr e ↦ rw e (HasCountsOf-extend s rest _ (update_first-HasCountsOf f same own rest))
]

update_first-eq-none :
    (f : Snapshot → Snapshot) (id : Text) (current : List Snapshot)
    → update_first f id current ≡ none
    → count_of id current ≡ 0
unfolding update_first count_of
update_first-eq-none f id [] h = refl
update_first-eq-none f id (s ∷ rest) h = ground (arith, update_first-eq-none f id rest)

pub count_of-take-le :
    (id : Text) (n : ℕ) (current : List Snapshot)
    → count_of id (take n current) ≤ count_of id current
unfolding count_of
count_of-take-le id zero current = omega arith
count_of-take-le id (suc n) [] = omega arith
count_of-take-le id (suc n) (s ∷ rest) = ground (arith, count_of-take-le id n rest)

-- A snapshot of this id is on top of the list that is cut.
taken-IsKept :
    (s : Snapshot) (current : List Snapshot)
    → IsKept current
    → ((id : Text) → is_blank id ≡ false → is_of id s ≡ true → count_of id current ≡ 0)
    → IsKept (take 50 (s ∷ current))
unfolding count_of
taken-IsKept s current (l, c) fresh = (
  length-take-le 50 (s ∷ current),
  λ id filled. elim (Bool-cases (is_of id s)) [
    | inl e ↦ rw e (omega (arith, count_of-take-le id 49 current, fresh id filled e))
    | inr e ↦ rw e (omega (arith, count_of-take-le id 49 current, c id filled))
  ],
)

if-IsKept :
    (b : Bool) (xs ys : List Snapshot) → IsKept xs → IsKept ys → IsKept (if b then xs else ys)
if-IsKept true xs ys k j = k
if-IsKept false xs ys k j = j

abbrev of_submission : Text → Option Text → Bool
of_submission id none = false
of_submission id (some own) = text_eq own id

add_snapshot-IsKept :
    (id : Text) (now : ℕ) (trigger : SnapshotTrigger) (language code : Text) (extra : Extra)
    (current : List Snapshot)
    → IsKept current
    → ((of : Text)
        → is_blank of ≡ false
        → of_submission of extra.submission_id ≡ true
        → count_of of current ≡ 0)
    → IsKept (add_snapshot id now trigger language code extra current)
unfolding add_snapshot
add_snapshot-IsKept id now trigger language code extra current k fresh =
    if-IsKept (is_trigger trigger autosave && is_autosaved code current) current _ k (
      if-IsKept (is_on_top trigger code current && not (is_some (present_id extra.submission_id)))
        current _ k (taken-IsKept _ current k fresh))

record_of-IsKept :
    (current added : List Snapshot) (o : Option (List Snapshot))
    → HasCountsOf current o
    → IsKept current
    → (o ≡ none → IsKept added)
    → IsKept (record_of o added)
record_of-IsKept current added none h k new = new refl
record_of-IsKept current added (some updated) (l, c) k new =
    (rw l k.0, λ id filled. rw (c id) (k.1 id filled))

not_present :
    (sid : Option Text) (id : Text)
    → present_id sid ≡ none
    → is_blank id ≡ false
    → of_submission id sid ≡ false
not_present none id h filled = refl
not_present (some []) (c ∷ id) h filled = refl
not_present (some []) [] h filled = absurd (cc filled)
not_present (some (c ∷ own)) id h filled = absurd (cc h)

present-id :
    (sid : Option Text) (own id : Text)
    → present_id sid ≡ some own
    → of_submission id sid ≡ true
    → own ≡ id
present-id none own id h e = absurd (cc h)
present-id (some []) own id h e = absurd (cc h)
present-id (some (c ∷ s)) own id h e =
    let same : own ≡ c ∷ s = cc in same ∙ (text_eq_iff (c ∷ s) id).0 e

-- Whatever is recorded, at most 50 snapshots stay, and at most one of each submission, if that was
-- so before.
pub record_snapshot-IsKept :
    (id : Text) (now : ℕ) (trigger : SnapshotTrigger) (language code : Text) (extra : Extra)
    (current : List Snapshot)
    → IsKept current
    → IsKept (record_snapshot id now trigger language code extra current)
unfolding record_snapshot
record_snapshot-IsKept id now trigger language code extra current k =
    let added = add_snapshot id now trigger language code extra current in
    let sid = extra.submission_id in
    elim (present_id sid)
        as (λ o.
          present_id sid ≡ o
          → IsKept (elim o [
            | none ↦ added
            | some own ↦ record_of (update_first (with_extra extra) own current) added
          ])) [
            | none ↦ λ absent.
                add_snapshot-IsKept id now trigger language code extra current k
                  (λ of filled e. absurd (cc (not_present sid of absent filled)))
            | some own ↦ λ present.
                record_of-IsKept current added (update_first (with_extra extra) own current)
                  (update_first-HasCountsOf (with_extra extra) (λ s. refl) own current) k
                  (λ missing.
                    add_snapshot-IsKept id now trigger language code extra current k (λ of filled e.
                      subst (λ (i : Text). count_of i current ≡ 0) (present-id sid own of present e)
                        (update_first-eq-none (with_extra extra) own current missing)))
          ]
      refl
