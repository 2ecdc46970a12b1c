-- ===== src/TestCases/Pairs/Roles.antt =====
-- Which files make a pair, and which of the two is which.
use algo_test.Prelude.{
  ℕ, Bool, true, false, ◌&&◌, not, Option, none, some, List, [], ◌∷◌, ◌≡◌, ◌⊎◌, inl, inr, refl, sym,
  ◌∙◌, ap, Text, text_eq, text_eq_iff, Bool-cases, All, All-append,
}
use algo_test.TestCases.Bank.{TestFile}
use algo_test.TestCases.Pairs.{
  is_input, is_output, base_of, FileGroup, assign, number_of, place_file, group_files,
  PairedTestFiles, pair_of, pairs_of, insert_group, sort_groups, group_le, match_test_file_pairs,
}

-- The name of the file says that it is an input or an output, and not both.
abbrev pub HasOneRole : TestFile → Type 0
HasOneRole file = is_output file.name ≡ not (is_input file.name)

-- A file in a slot is of the group.
abbrev InSlot : Text → Option TestFile → Type 0
InSlot key none = Unit
InSlot key (some file) = (base_of file.name ≡ key) × HasOneRole file

-- A file that is alone is in its own slot, and of two files one is.
abbrev ArePlaced : Option TestFile → Option TestFile → Type 0
ArePlaced none none = Unit
ArePlaced (some i) none = is_input i.name ≡ true
ArePlaced none (some e) = is_input e.name ≡ false
ArePlaced (some i) (some e) = (is_input i.name ≡ true) ⊎ (is_input e.name ≡ false)

abbrev IsSound : FileGroup → Type 0
IsSound g = InSlot g.key g.input × InSlot g.key g.expected × ArePlaced g.input g.expected

slots-IsSound :
    (file : TestFile) (key : Text) (sort_key : ℕ) (input expected : Option TestFile)
    → base_of file.name ≡ key
    → HasOneRole file
    → InSlot key input
    → InSlot key expected
    → ArePlaced input expected
    → IsSound (
        assign file (record { key = key; input = input; expected = expected; sort_key = sort_key }))
unfolding assign
slots-IsSound file key sort_key none none same role i e placed =
    elim (Bool-cases (is_input file.name)) [
      | inl told ↦ rw told ((same, role), tt, told)
      | inr denied ↦ rw (denied, role ∙ ap not denied) (tt, (same, role), denied)
    ]
slots-IsSound file key sort_key (some x) none same role i e placed =
    elim (Bool-cases (is_input file.name)) [
      | inl told ↦ rw (told, role ∙ ap not told) (i, (same, role), inl placed)
      | inr denied ↦ rw (denied, role ∙ ap not denied) (i, (same, role), inl placed)
    ]
slots-IsSound file key sort_key none (some y) same role i e placed =
    elim (Bool-cases (is_input file.name)) [
      | inl told ↦ rw told ((same, role), e, inr placed)
      | inr denied ↦ rw (denied, role ∙ ap not denied) ((same, role), e, inr placed)
    ]
slots-IsSound file key sort_key (some x) (some y) same role i e placed =
    elim (Bool-cases (is_input file.name)) [
      | inl told ↦ rw (told, role ∙ ap not told) (i, e, placed)
      | inr denied ↦ rw (denied, role ∙ ap not denied) (i, e, placed)
    ]

place_file-AreSound :
    (file : TestFile) (groups : List FileGroup)
    → HasOneRole file
    → All IsSound groups
    → All IsSound (place_file file groups)
unfolding place_file
place_file-AreSound file [] role sound =
    (slots-IsSound file (base_of file.name) (number_of file.name) none none refl role tt tt tt, tt)
place_file-AreSound file (g ∷ groups) role (s, sound) =
    elim (Bool-cases (text_eq g.key (base_of file.name))) [
      | inl same ↦ rw same (
        slots-IsSound file g.key g.sort_key g.input g.expected
            (sym ((text_eq_iff g.key (base_of file.name)).0 same)) role s.0 s.1 s.2,
        sound,
      )
      | inr other ↦ rw other (s, place_file-AreSound file groups role sound)
    ]

group_files-AreSound :
    (files : List TestFile) (groups : List FileGroup)
    → All HasOneRole files
    → All IsSound groups
    → All IsSound (group_files files groups)
unfolding group_files
group_files-AreSound [] groups roles sound = sound
group_files-AreSound (file ∷ files) groups (role, roles) sound =
    group_files-AreSound files (place_file file groups) roles
      (place_file-AreSound file groups role sound)

module _ (locale_le : Text → Text → Bool) where
  insert_group-AreSound :
      (g : FileGroup) (groups : List FileGroup)
      → IsSound g
      → All IsSound groups
      → All IsSound (insert_group locale_le g groups)
  unfolding insert_group
  insert_group-AreSound g [] s sound = (s, tt)
  insert_group-AreSound g (h ∷ groups) s (t, sound) = elim (Bool-cases (group_le locale_le g h)) [
    | inl first ↦ rw first (s, (t, sound))
    | inr later ↦ rw later (t, insert_group-AreSound g groups s sound)
  ]

  sort_groups-AreSound :
      (groups : List FileGroup) → All IsSound groups → All IsSound (sort_groups locale_le groups)
  unfolding sort_groups
  sort_groups-AreSound [] sound = tt
  sort_groups-AreSound (g ∷ groups) (s, sound) =
      insert_group-AreSound g (sort_groups locale_le groups) s (sort_groups-AreSound groups sound)

-- The two files of a pair have its base name, and they are not an output for the input and an input
-- for the output.
abbrev pub IsMatched : PairedTestFiles → Type 0
IsMatched pair =
    (base_of pair.input_file.name ≡ pair.base_name)
    × (base_of pair.expected_file.name ≡ pair.base_name)
    × ((is_output pair.input_file.name && is_input pair.expected_file.name) ≡ false)

one_placed :
    (x y : TestFile)
    → HasOneRole x
    → (is_input x.name ≡ true) ⊎ (is_input y.name ≡ false)
    → (is_output x.name && is_input y.name) ≡ false
one_placed x y role placed = elim placed [
  | inl first ↦ rw (role, first) refl
  | inr second ↦
      rw second
        (elim (is_output x.name) as (λ b. (b && false) ≡ false) [ true ↦ refl | false ↦ refl ])
]

slots-AreMatched :
    (key : Text) (sort_key : ℕ) (input expected : Option TestFile)
    → InSlot key input
    → InSlot key expected
    → ArePlaced input expected
    → All IsMatched
        (pair_of (record { key = key; input = input; expected = expected; sort_key = sort_key }))
slots-AreMatched key sort_key none expected i e placed = tt
slots-AreMatched key sort_key (some x) none i e placed = tt
slots-AreMatched key sort_key (some x) (some y) i e placed =
    ((i.0, e.0, one_placed x y i.1 placed), tt)

pairs_of-AreMatched :
    (groups : List FileGroup) → All IsSound groups → All IsMatched (pairs_of groups)
unfolding pairs_of
pairs_of-AreMatched [] sound = tt
pairs_of-AreMatched (g ∷ groups) (s, sound) =
    All-append IsMatched (pair_of g) (pairs_of groups)
      (slots-AreMatched g.key g.sort_key g.input g.expected s.0 s.1 s.2)
      (pairs_of-AreMatched groups sound)

-- If the name of each file says that it is an input or an output, and not both, then the two files
-- of each pair have the same base name, that of the pair, and they are not swapped.
pub match_test_file_pairs-AreMatched :
    (locale_le : Text → Text → Bool) (files : List TestFile)
    → All HasOneRole files
    → All IsMatched (match_test_file_pairs locale_le files).0
unfolding match_test_file_pairs
match_test_file_pairs-AreMatched locale_le files roles =
    pairs_of-AreMatched (sort_groups locale_le (group_files files [])) (
      sort_groups-AreSound locale_le (group_files files [])
        (group_files-AreSound files [] roles tt))
