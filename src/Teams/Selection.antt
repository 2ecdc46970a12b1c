-- ===== src/Teams/Selection.antt =====
-- Which of the rows are handed on.
use algo_test.Prelude.{
  ℕ, ◌+◌, ◌≤◌, ◌<◌, ◌==◌, ◌≡◌, refl, true, false, ◌&&◌, not, List, [], ◌∷◌, ◌++◌, select,
  if◌then◌else◌, Bool-cases, inl, inr, arith, Text, map, All, Option, none, some, length, to_lower,
  has_text, sym,
}
use algo_test.Teams.{
  ParsedTeamItem, is_selected, valid_from, selected_from, BulkSelection, toggle_row_selection,
  read_items, BulkTeamMode, CreateTeamInput, TeamMember, input_of, Submission, submitted,
  local_error, handle_submit, parse_teams_input,
}
use algo_test.Teams.Keys.{AreDistinct, AreMissing}
use algo_test.Teams.Names.{keys_of, HasFewMembers}
use algo_test.Teams.Groups.{AreImportable, parse_teams_input-AreImportable}

is_selected-append :
    (xs ys : List ℕ) (i : ℕ)
    → is_selected (xs ++ ys) i ≡ (if is_selected xs i then true else is_selected ys i)
is_selected-append [] ys i = refl
is_selected-append (x ∷ xs) ys i = ground (arith, is_selected-append xs ys i)

is_selected-select :
    (xs : List ℕ) (index i : ℕ)
    → is_selected (select (λ j. not (j == index)) xs) i ≡ (is_selected xs i && not (i == index))
is_selected-select [] index i = refl
is_selected-select (x ∷ xs) index i = ground (arith, is_selected-select xs index i)

-- A click on a row changes whether this row is selected, and no other.
pub is_selected-toggle_row_selection :
    (index i : ℕ) (s : BulkSelection)
    → is_selected (toggle_row_selection index s).selected i
      ≡ (if i == index then not (is_selected s.selected i) else is_selected s.selected i)
unfolding toggle_row_selection
is_selected-toggle_row_selection index i s =
    ground
      (arith, is_selected-append s.selected (index ∷ []) i, is_selected-select s.selected index i)

valid_from-before :
    (index i : ℕ) (items : List ParsedTeamItem)
    → i < index
    → is_selected (valid_from index items) i ≡ false
unfolding valid_from
valid_from-before index i [] h = refl
valid_from-before index i (item ∷ items) h = ground (arith, valid_from-before (index + 1) i items)

-- With a selection that holds the valid indices of the items, the chosen ones are all valid items.
selected_from-valid_from :
    (index : ℕ) (selected : List ℕ) (items : List ParsedTeamItem)
    → ((i : ℕ) → index ≤ i → is_selected selected i ≡ is_selected (valid_from index items) i)
    → selected_from index selected items ≡ select (λ item. item.is_valid) items
unfolding selected_from valid_from
selected_from-valid_from index selected [] same = refl
selected_from-valid_from index selected (item ∷ items) same =
    let here = same index (omega arith) in
    let rest =
      selected_from-valid_from (index + 1) selected items (λ i h. ground (arith, same i)) in
    ground (arith, here, rest)

-- When a text has been read, the teams that are chosen are all valid ones.
pub selected_from-read_items :
    (text : Text) (mode : BulkTeamMode) (existing : List Text)
    → let s = read_items text mode existing in
      selected_from 0 s.selected s.items ≡ select (λ item. item.is_valid) s.items
unfolding read_items
selected_from-read_items text mode existing = selected_from-valid_from 0 _ _ (λ i h. refl)

has_text-selected_from :
    (key : Text) (index : ℕ) (selected : List ℕ) (items : List ParsedTeamItem)
    → has_text key (keys_of items) ≡ false
    → has_text key (keys_of (selected_from index selected items)) ≡ false
unfolding selected_from keys_of
has_text-selected_from key index selected [] h = refl
has_text-selected_from key index selected (item ∷ items) h =
    ground (arith, has_text-selected_from key (index + 1) selected items)

-- A team that is handed on, under its key, with a number of members.
abbrev pub team_keys : List CreateTeamInput → List Text
team_keys teams = map (λ team. map to_lower team.name) teams

abbrev pub member_count : Option (List TeamMember) → ℕ
member_count none = 0
member_count (some members) = length members

abbrev AreValid : List ParsedTeamItem → Type 0
AreValid items = All (λ item. item.is_valid ≡ true) items

selected_from-AreValid :
    (index : ℕ) (selected : List ℕ) (items : List ParsedTeamItem)
    → AreValid (selected_from index selected items)
unfolding selected_from
selected_from-AreValid index selected [] = tt
selected_from-AreValid index selected (item ∷ items) =
    elim (Bool-cases (item.is_valid && is_selected selected index)) [
      | inl e ↦ rw e (ground arith, selected_from-AreValid (index + 1) selected items)
      | inr e ↦ rw e (selected_from-AreValid (index + 1) selected items)
    ]

keys_of-AreValid :
    (items : List ParsedTeamItem) → AreValid items → keys_of items ≡ team_keys (map input_of items)
unfolding keys_of
keys_of-AreValid [] h = refl
keys_of-AreValid (item ∷ items) (v, vs) = rw (v, keys_of-AreValid items vs)

-- What is importable of a list whose head is valid, or is not.
valid_head :
    (existing : List Text) (item : ParsedTeamItem) (items : List ParsedTeamItem)
    → item.is_valid ≡ true
    → AreImportable existing (item ∷ items)
    → (has_text (map to_lower item.name) (keys_of items) ≡ false)
      × (has_text (map to_lower item.name) existing ≡ false)
      × AreImportable existing items
unfolding keys_of
valid_head existing item items v (d, m, f) =
    let d' : AreDistinct (map to_lower item.name ∷ keys_of items) = rw v at d in
    let m' : AreMissing existing (map to_lower item.name ∷ keys_of items) = rw v at m in
    (d'.0, m'.0, (d'.1, m'.1, f.1))

invalid_head :
    (existing : List Text) (item : ParsedTeamItem) (items : List ParsedTeamItem)
    → item.is_valid ≡ false
    → AreImportable existing (item ∷ items)
    → AreImportable existing items
unfolding keys_of
invalid_head existing item items v (d, m, f) =
    let d' : AreDistinct (keys_of items) = rw v at d in
    let m' : AreMissing existing (keys_of items) = rw v at m in (d', m', f.1)

AreImportable-cons :
    (existing : List Text) (item : ParsedTeamItem) (items : List ParsedTeamItem)
    → item.is_valid ≡ true
    → has_text (map to_lower item.name) (keys_of items) ≡ false
    → has_text (map to_lower item.name) existing ≡ false
    → HasFewMembers item
    → AreImportable existing items
    → AreImportable existing (item ∷ items)
unfolding keys_of
AreImportable-cons existing item items v apart missing few (d, m, f) =
    let keys : keys_of (item ∷ items) ≡ map to_lower item.name ∷ keys_of items = rw v in
    (rw keys (apart, d), rw keys (missing, m), (few, f))

selected_from-AreImportable :
    (existing : List Text) (index : ℕ) (selected : List ℕ) (items : List ParsedTeamItem)
    → AreImportable existing items
    → AreImportable existing (selected_from index selected items)
unfolding selected_from
selected_from-AreImportable existing index selected [] k = k
selected_from-AreImportable existing index selected (item ∷ items) k =
    elim (Bool-cases item.is_valid) [
      | inr v ↦ rw v (
          selected_from-AreImportable existing (index + 1) selected items
            (invalid_head existing item items v k))
      | inl v ↦
          let (apart, missing, rest) = valid_head existing item items v k in
          let chosen = selected_from-AreImportable existing (index + 1) selected items rest in
          let lacks = has_text-selected_from _ (index + 1) selected items apart in
          elim (Bool-cases (is_selected selected index)) [
            | inl e ↦
                let both : (item.is_valid && is_selected selected index) ≡ true = ground arith in
                rw both (AreImportable-cons existing item _ v lacks missing k.2.0 chosen)
            | inr e ↦
                let none_of : (item.is_valid && is_selected selected index) ≡ false =
                  ground arith in
                rw none_of chosen
          ]
    ]

-- The teams differ in lower case from one another and from those that exist, and are small.
abbrev pub AreNewTeams : List Text → Submission → Type 0
AreNewTeams existing (local_error message) = Unit
AreNewTeams existing (submitted teams) =
    AreDistinct (team_keys teams)
    × AreMissing existing (team_keys teams)
    × All (λ team. member_count team.members ≤ 3) teams

input_of-few :
    (items : List ParsedTeamItem)
    → AreValid items
    → All HasFewMembers items
    → All (λ team. member_count team.members ≤ 3) (map input_of items)
input_of-few [] v f = tt
input_of-few (item ∷ items) (v, vs) (f, fs) = (few, input_of-few items vs fs)
  where
    few : member_count (input_of item).members ≤ 3
    few = ground (arith, f v)

-- Whichever rows are selected, the teams that the dialog hands on have names that differ in lower
-- case from one another and from the names that exist, and each has at most 3 members.
pub handle_submit-AreNewTeams :
    (text : Text) (mode : BulkTeamMode) (existing : List Text) (selected : List ℕ)
    → AreNewTeams existing (
        handle_submit
          (record { items = parse_teams_input text mode existing; selected = selected }))
unfolding handle_submit
handle_submit-AreNewTeams text mode existing selected =
    let items = parse_teams_input text mode existing in
    let chosen = selected_from 0 selected items in
    let valid = selected_from-AreValid 0 selected items in
    let (d, m, f) =
      selected_from-AreImportable existing 0 selected items
        (parse_teams_input-AreImportable text mode existing) in
    let same = keys_of-AreValid chosen valid in
    elim (Bool-cases (length items == 0)) [
      | inl e ↦ rw e tt
      | inr e ↦ elim (Bool-cases (length chosen == 0)) [
        | inl e' ↦ rw (e, e') tt
        | inr e' ↦ rw (e, e', sym same) (d, m, input_of-few chosen valid f)
      ]
    ]
