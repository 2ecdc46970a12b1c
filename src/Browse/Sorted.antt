-- ===== src/Browse/Sorted.antt =====
-- What sorting keeps, and the order that it makes.
use algo_test.Prelude.{
  length, suc, arith, ◌≡◌, refl, ap, ◌∙◌, Bool, true, false, Bool-cases, inl, inr, List, [], ◌∷◌,
  All,
}
use mathlib.Core.List.{Perm}
use mathlib.Core.List.Perm
use algo_test.Browse.{insert_by, sort_by}

module _ {ℓ} {A : Type ℓ} (before : A → A → Bool) where
  insert_by-Perm : (x : A) (xs : List A) → Perm (insert_by before x xs) (x ∷ xs)
  insert_by-Perm x [] = Perm.refl (x ∷ [])
  insert_by-Perm x (y ∷ rest) = elim (Bool-cases (before y x)) [
    | inl later ↦ rw later (Perm.trans (Perm.cons y (insert_by-Perm x rest)) (Perm.swap x y rest))
    | inr here ↦ rw here (Perm.refl (x ∷ y ∷ rest))
  ]

  -- Sorting loses nothing and adds nothing.
  pub sort_by-Perm : (xs : List A) → Perm (sort_by before xs) xs
  sort_by-Perm [] = Perm.refl []
  sort_by-Perm (x ∷ rest) =
      Perm.trans (insert_by-Perm x (sort_by before rest)) (Perm.cons x (sort_by-Perm rest))

  length-insert_by : (x : A) (xs : List A) → length (insert_by before x xs) ≡ suc (length xs)
  length-insert_by x [] = refl
  length-insert_by x (y ∷ rest) = ground (arith, length-insert_by x rest)

  pub length-sort_by : (xs : List A) → length (sort_by before xs) ≡ length xs
  length-sort_by [] = refl
  length-sort_by (x ∷ rest) =
      length-insert_by x (sort_by before rest) ∙ ap suc (length-sort_by rest)

  -- Nothing comes before the element in front of it.
  abbrev IsAfter : A → List A → Type 0
  IsAfter x [] = Unit
  IsAfter x (y ∷ rest) = before y x ≡ false

  abbrev pub IsSorted : List A → Type 0
  IsSorted [] = Unit
  IsSorted (x ∷ rest) = IsAfter x rest × IsSorted rest

  insert_by-IsAfter :
      (y x : A) (xs : List A)
      → before x y ≡ false
      → IsAfter y xs
      → IsAfter y (insert_by before x xs)
  insert_by-IsAfter y x [] le after = le
  insert_by-IsAfter y x (z ∷ rest) le after = elim (Bool-cases (before z x)) [
    | inl later ↦ rw later after
    | inr here ↦ rw here le
  ]

  insert_by-IsSorted :
      ((a b : A) → before a b ≡ true → before b a ≡ false)
      → (x : A) (xs : List A) → IsSorted xs
      → IsSorted (insert_by before x xs)
  insert_by-IsSorted asym x [] sorted = (tt, tt)
  insert_by-IsSorted asym x (y ∷ rest) (after, sorted) = elim (Bool-cases (before y x)) [
    | inl later ↦
        rw later
          (insert_by-IsAfter y x rest (asym y x later) after, insert_by-IsSorted asym x rest sorted)
    | inr here ↦ rw here (here, (after, sorted))
  ]

  pub sort_by-IsSorted :
      ((a b : A) → before a b ≡ true → before b a ≡ false)
      → (xs : List A) → IsSorted (sort_by before xs)
  sort_by-IsSorted asym [] = tt
  sort_by-IsSorted asym (x ∷ rest) =
      insert_by-IsSorted asym x (sort_by before rest) (sort_by-IsSorted asym rest)

  insert_by-IsSorted-eq : (x : A) (xs : List A) → IsAfter x xs → insert_by before x xs ≡ x ∷ xs
  insert_by-IsSorted-eq x [] after = refl
  insert_by-IsSorted-eq x (y ∷ rest) after = rw after refl

  -- A list in order stays as it is.
  pub sort_by-eq : (xs : List A) → IsSorted xs → sort_by before xs ≡ xs
  sort_by-eq [] sorted = refl
  sort_by-eq (x ∷ rest) (after, sorted) =
      ap (insert_by before x) (sort_by-eq rest sorted) ∙ insert_by-IsSorted-eq x rest after

  pub IsSorted-never : ((a b : A) → before a b ≡ false) → (xs : List A) → IsSorted xs
  IsSorted-never never [] = tt
  IsSorted-never never (x ∷ []) = (tt, tt)
  IsSorted-never never (x ∷ y ∷ rest) = (never y x, IsSorted-never never (y ∷ rest))

  insert_by-All {κ} :
      (P : A → Type κ) (x : A) (xs : List A) → P x → All P xs → All P (insert_by before x xs)
  insert_by-All P x [] h hs = (h, tt)
  insert_by-All P x (y ∷ rest) h (k, hs) = elim (Bool-cases (before y x)) [
    | inl later ↦ rw later (k, insert_by-All P x rest h hs)
    | inr here ↦ rw here (h, (k, hs))
  ]

  pub sort_by-All {κ} : (P : A → Type κ) (xs : List A) → All P xs → All P (sort_by before xs)
  sort_by-All P [] hs = tt
  sort_by-All P (x ∷ rest) (h, hs) =
      insert_by-All P x (sort_by before rest) h (sort_by-All P rest hs)
