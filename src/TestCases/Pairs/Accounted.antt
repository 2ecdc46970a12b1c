-- ===== src/TestCases/Pairs/Accounted.antt =====
-- Whether a file is lost between the pairs and the files without a match.
use algo_test.Prelude.{
  ℕ, suc, ◌+◌, ◌≤◌, ◌<◌, Bool, true, Option, none, some, List, [], ◌∷◌, ◌≡◌, inl, inr, refl, sym,
  ◌∙◌, Text, text_eq, text_eq_iff, if◌then◌else◌, Bool-cases, arith, map,
}
use algo_test.TestCases.Bank.{TestFile}
use algo_test.TestCases.Pairs.Names.{occurrences, names_of, names_of-append, occurrences-append}
use algo_test.TestCases.Pairs.{
  base_of, FileGroup, assign, number_of, place_file, group_files, pair_of, pairs_of, unmatched_of,
  unmatched_from, insert_group, sort_groups, group_le, match_test_file_pairs,
}

abbrev taken_slot : Option TestFile → ℕ
taken_slot none = 0
taken_slot (some file) = 1

abbrev taken : FileGroup → ℕ
taken g = taken_slot g.input + taken_slot g.expected

abbrev once : Text → Text → ℕ
once name other = if text_eq other name then 1 else 0

-- How often the file, or the files of a group, or of the groups, have this name.
abbrev held_slot : Text → Option TestFile → ℕ
held_slot name none = 0
held_slot name (some file) = once name file.name

abbrev held : Text → FileGroup → ℕ
held name g = held_slot name g.input + held_slot name g.expected

abbrev held_all : Text → List FileGroup → ℕ
held_all name [] = 0
held_all name (g ∷ groups) = held name g + held_all name groups

-- The files of the group with this key.
abbrev taken_of : Text → List FileGroup → ℕ
taken_of key [] = 0
taken_of key (g ∷ groups) = if text_eq g.key key then taken g else taken_of key groups

-- 1 if the base name is the key.
abbrev one_if : Text → Text → ℕ
one_if base key = if text_eq base key then 1 else 0

-- How many of the files have this base name.
abbrev pub count_of : Text → List TestFile → ℕ
count_of key [] = 0
count_of key (file ∷ files) = one_if (base_of file.name) key + count_of key files

slots-assign :
    (file : TestFile) (key : Text) (sort_key : ℕ) (input expected : Option TestFile)
    → let g : FileGroup = record {
      key = key;
      input = input;
      expected = expected;
      sort_key = sort_key;
    } in
      taken g < 2 → (taken (assign file g) ≡ suc (taken g)) × ((assign file g).key ≡ key)
unfolding assign
slots-assign file key sort_key none none room = ground arith
slots-assign file key sort_key (some x) none room = ground arith
slots-assign file key sort_key none (some y) room = ground arith
slots-assign file key sort_key (some x) (some y) room = absurd (omega (arith, room))

held-assign :
    (name : Text) (file : TestFile) (key : Text) (sort_key : ℕ) (input expected : Option TestFile)
    → let g : FileGroup = record {
      key = key;
      input = input;
      expected = expected;
      sort_key = sort_key;
    } in
      taken g < 2 → held name (assign file g) ≡ once name file.name + held name g
unfolding assign
held-assign name file key sort_key none none room = ground arith
held-assign name file key sort_key (some x) none room = ground arith
held-assign name file key sort_key none (some y) room = ground arith
held-assign name file key sort_key (some x) (some y) room = absurd (omega (arith, room))

held_all-place_file :
    (name : Text) (file : TestFile) (groups : List FileGroup)
    → taken_of (base_of file.name) groups < 2
    → held_all name (place_file file groups) ≡ once name file.name + held_all name groups
unfolding place_file
held_all-place_file name file [] room =
    omega (
      arith,
      held-assign name file (base_of file.name) (number_of file.name) none none (omega arith),
    )
held_all-place_file name file (g ∷ groups) room =
    elim (Bool-cases (text_eq g.key (base_of file.name))) [
      | inl same ↦
          let here : taken g < 2 = ground (arith, room, same) in
          rw same (omega (arith, held-assign name file g.key g.sort_key g.input g.expected here))
      | inr other ↦
          let behind : taken_of (base_of file.name) groups < 2 = ground (arith, room, other) in
          rw other (omega (arith, held_all-place_file name file groups behind))
    ]

taken_of-place_file :
    (key : Text) (file : TestFile) (groups : List FileGroup)
    → taken_of (base_of file.name) groups < 2
    → taken_of key (place_file file groups) ≡ one_if (base_of file.name) key + taken_of key groups
unfolding place_file
taken_of-place_file key file [] room =
    let (one_more, kept) =
      slots-assign file (base_of file.name) (number_of file.name) none none (omega arith) in
    rw (kept, one_more) (ground arith)
taken_of-place_file key file (g ∷ groups) room =
    elim (Bool-cases (text_eq g.key (base_of file.name))) [
      | inl same ↦
          let here : taken g < 2 = ground (arith, room, same) in
          let (one_more, kept) = slots-assign file g.key g.sort_key g.input g.expected here in
          let at : g.key ≡ base_of file.name = (text_eq_iff g.key (base_of file.name)).0 same in
          rw (same, kept, one_more, sym at) (ground arith)
      | inr other ↦
          let behind : taken_of (base_of file.name) groups < 2 = ground (arith, room, other) in
          rw other (
            ground (
              arith,
              other,
              text_eq_iff g.key key,
              text_eq_iff (base_of file.name) key,
              text_eq_iff g.key (base_of file.name),
              taken_of-place_file key file groups behind,
            ))
    ]

-- While no key has more than two files, each file gets a slot.
held_all-group_files :
    (name : Text) (files : List TestFile) (groups : List FileGroup)
    → ((key : Text) → count_of key files + taken_of key groups ≤ 2)
    → held_all name (group_files files groups)
      ≡ occurrences name (map (λ file. file.name) files) + held_all name groups
unfolding group_files occurrences
held_all-group_files name [] groups few = omega arith
held_all-group_files name (file ∷ files) groups few =
    let self : text_eq (base_of file.name) (base_of file.name) ≡ true =
      (text_eq_iff (base_of file.name) (base_of file.name)).1 refl in
    let room : taken_of (base_of file.name) groups < 2 =
      ground (arith, self, few (base_of file.name)) in
    ground (
      arith,
      held_all-place_file name file groups room,
      held_all-group_files name files (place_file file groups)
          (λ key. omega (arith, few key, taken_of-place_file key file groups room)),
    )

module _ (locale_le : Text → Text → Bool) (name : Text) where
  held_all-insert_group :
      (g : FileGroup) (groups : List FileGroup)
      → held_all name (insert_group locale_le g groups) ≡ held name g + held_all name groups
  unfolding insert_group
  held_all-insert_group g [] = refl
  held_all-insert_group g (h ∷ groups) = elim (Bool-cases (group_le locale_le g h)) [
    | inl first ↦ rw first refl
    | inr later ↦ rw later (omega (arith, held_all-insert_group g groups))
  ]

  held_all-sort_groups :
      (groups : List FileGroup)
      → held_all name (sort_groups locale_le groups) ≡ held_all name groups
  unfolding sort_groups
  held_all-sort_groups [] = refl
  held_all-sort_groups (g ∷ groups) =
      omega
        (arith, held_all-insert_group g (sort_groups locale_le groups), held_all-sort_groups groups)

held-slots :
    (name key : Text) (sort_key : ℕ) (input expected : Option TestFile)
    → let g : FileGroup = record {
      key = key;
      input = input;
      expected = expected;
      sort_key = sort_key;
    } in
      occurrences name (names_of (pair_of g)) + occurrences name (unmatched_of g) ≡ held name g
unfolding occurrences names_of
held-slots name key sort_key none none = refl
held-slots name key sort_key none (some y) = ground arith
held-slots name key sort_key (some x) none = ground arith
held-slots name key sort_key (some x) (some y) = ground arith

held_all-pairs_of :
    (name : Text) (groups : List FileGroup)
    → occurrences name (names_of (pairs_of groups)) + occurrences name (unmatched_from groups)
      ≡ held_all name groups
unfolding pairs_of unmatched_from occurrences names_of
held_all-pairs_of name [] = refl
held_all-pairs_of name (g ∷ groups) = rw (names_of-append (pair_of g) (pairs_of groups)) (
    omega (
      arith,
      held-slots name g.key g.sort_key g.input g.expected,
      held_all-pairs_of name groups,
      occurrences-append name (names_of (pair_of g)) (names_of (pairs_of groups)),
      occurrences-append name (unmatched_of g) (unmatched_from groups),
    ))

-- If no three files have the same base name, then no file is lost and none is used twice: every name
-- occurs among the files of the pairs and those named as unmatched as often as among the files.
pub match_test_file_pairs-accounted :
    (locale_le : Text → Text → Bool) (files : List TestFile) (name : Text)
    → ((key : Text) → count_of key files ≤ 2)
    → let (pairs, unmatched) = match_test_file_pairs locale_le files in
      occurrences name (names_of pairs) + occurrences name unmatched
      ≡ occurrences name (map (λ file. file.name) files)
unfolding match_test_file_pairs
match_test_file_pairs-accounted locale_le files name few =
    held_all-pairs_of name (sort_groups locale_le (group_files files []))
    ∙ held_all-sort_groups locale_le name (group_files files [])
    ∙ omega (arith, held_all-group_files name files [] (λ key. omega (arith, few key)))
