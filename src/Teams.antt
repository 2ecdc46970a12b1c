-- ===== src/Teams.antt =====
-- The bulk import of teams, admin-frontend/src/components/teams/team-bulk-dialog.tsx: the reading
-- of the text, `parseTeamsInput`, and the rows that are selected for the import.
pub mod Keys
pub mod Names
pub mod Groups
pub mod Selection
use algo_test.Prelude.{
  ℕ, ◌+◌, ◌==◌, Bool, true, false, ◌&&◌, ◌||◌, not, Option, none, some, List, [], ◌∷◌, ◌++◌, map,
  if◌then◌else◌, Text, codes, trim, is_blank, to_lower, includes, has_text, text_eq, decimal, ltb,
  length, any, all, select,
}
use algo_test.Csv.{split_delimited_line, lines_of, part, part_or_empty}

pub data BulkTeamMode : Type 0 where
  names_only with_members : BulkTeamMode

pub record TeamMember : Type 0 where
  pub username : Text
  pub display_name : Option Text
  pub password : Option Text

pub record ParsedTeamItem : Type 0 where
  pub name : Text
  pub members : List TeamMember
  pub is_valid : Bool
  pub validation_error : Option Text

abbrev pub max_members_per_team : ℕ
max_members_per_team = 3

unfoldable pub has_team_header : Text → Bool
unfolding includes
has_team_header first =
    let line = map to_lower first in
    includes line (codes "team")
    || (includes line (codes "name") || includes line (codes "username"))

unfoldable pub team_lines : List Text → List Text
team_lines [] = []
team_lines (first ∷ lines) = if has_team_header first then lines else first ∷ lines

abbrev pub refused_item : Text → List TeamMember → Text → ParsedTeamItem
refused_item name members error = record {
  name = name;
  members = members;
  is_valid = false;
  validation_error = some error;
}

abbrev pub accepted_item : Text → List TeamMember → ParsedTeamItem
accepted_item name members = record {
  name = name;
  members = members;
  is_valid = true;
  validation_error = none;
}

-- `(parts[0] || "").trim()`
unfoldable pub team_name_of : Text → Text
unfolding split_delimited_line trim
team_name_of line = trim (part_or_empty (split_delimited_line line) 0)

-- One line in the mode `names_only`, with the names that exist and those seen in the file.
unfoldable pub name_item : List Text → List Text → Text → ParsedTeamItem
name_item existing seen name =
    if is_blank name
    then refused_item [] [] (codes "Empty team name")
    else if has_text (map to_lower name) existing
    then refused_item name [] (codes "Team already exists in contest")
    else if has_text (map to_lower name) seen
    then refused_item name [] (codes "Duplicate team name in file")
    else accepted_item name []

-- `seenInFile` after the line.
abbrev pub seen_after : ParsedTeamItem → List Text → List Text
seen_after item seen = if item.is_valid then map to_lower item.name ∷ seen else seen

unfoldable pub name_items : List Text → List Text → List Text → List ParsedTeamItem
unfolding name_item
name_items existing seen [] = []
name_items existing seen (line ∷ lines) =
    let item = name_item existing seen (team_name_of line) in
    item ∷ name_items existing (seen_after item seen) lines

-- An entry of `teamMap`, under its key; the entries stand in the order of `teamOrder`.
pub record TeamGroup : Type 0 where
  pub key : Text
  pub original_name : Text
  pub members : List TeamMember

unfoldable pub add_member : Text → List TeamMember → List TeamGroup → List TeamGroup
add_member name joined [] =
    record { key = map to_lower name; original_name = name; members = joined } ∷ []
add_member name joined (g ∷ groups) =
    let later = add_member name joined groups in
    if text_eq g.key (map to_lower name)
    then record g { members = g.members ++ joined } ∷ groups
    else g ∷ later

-- `(parts[i] || "").trim() || undefined`
abbrev pub trimmed_part : List Text → ℕ → Option Text
trimmed_part parts i = let s = trim (part_or_empty parts i) in if is_blank s then none else some s

-- The member of a line, unless it names no user.
unfoldable pub member_of : Text → List TeamMember
unfolding split_delimited_line trim
member_of line =
    let parts = split_delimited_line line in
    let username = trim (part_or_empty parts 1) in
    if is_blank username
    then []
    else record {
      username = username;
      display_name = trimmed_part parts 2;
      password = trimmed_part parts 3;
    }
      ∷ []

unfoldable pub group_lines : List TeamGroup → List Text → List TeamGroup
unfolding add_member
group_lines groups [] = groups
group_lines groups (line ∷ lines) =
    let name = team_name_of line in
    group_lines (if is_blank name then groups else add_member name (member_of line) groups) lines

unfoldable pub group_item : List Text → TeamGroup → ParsedTeamItem
group_item existing g =
    if has_text g.key existing
    then refused_item g.original_name g.members (codes "Team already exists in contest")
    else if ltb max_members_per_team (length g.members)
    then refused_item g.original_name g.members (
        codes "Exceeds max 3 members per team (" ++ (decimal (length g.members) ++ codes " found)"))
    else accepted_item g.original_name g.members

unfoldable pub items_of : BulkTeamMode → List Text → List Text → List ParsedTeamItem
unfolding name_items group_lines group_item
items_of names_only existing lines = name_items existing [] lines
items_of with_members existing lines = map (group_item existing) (group_lines [] lines)

unfoldable pub parse_teams_input : Text → BulkTeamMode → List Text → List ParsedTeamItem
unfolding items_of team_lines has_team_header lines_of
parse_teams_input text mode existing = items_of mode existing (team_lines (lines_of text))

-- `existingTeamNamesSet`
unfoldable pub existing_team_names : List Text → List Text
unfolding trim
existing_team_names names = map (λ name. map to_lower (trim name)) names

-- The state of the dialog: the rows that are read, and the set of the selected ones.
pub record BulkSelection : Type 0 where
  pub items : List ParsedTeamItem
  pub selected : List ℕ

abbrev pub is_selected : List ℕ → ℕ → Bool
is_selected selected index = any (λ i. i == index) selected

-- `validIndices`, for the items from `index` on.
unfoldable pub valid_from : ℕ → List ParsedTeamItem → List ℕ
valid_from index [] = []
valid_from index (item ∷ items) =
    let rest = valid_from (index + 1) items in if item.is_valid then index ∷ rest else rest

-- When the text or the mode changes, all valid rows are selected.
unfoldable pub read_items : Text → BulkTeamMode → List Text → BulkSelection
unfolding parse_teams_input valid_from
read_items text mode existing =
    let items = if is_blank (trim text) then [] else parse_teams_input text mode existing in
    record { items = items; selected = valid_from 0 items }

unfoldable pub selected_from : ℕ → List ℕ → List ParsedTeamItem → List ParsedTeamItem
selected_from index selected [] = []
selected_from index selected (item ∷ items) =
    let rest = selected_from (index + 1) selected items in
    if item.is_valid && is_selected selected index then item ∷ rest else rest

-- `isAllValidSelected`
unfoldable pub is_all_valid_selected : BulkSelection → Bool
unfolding valid_from
is_all_valid_selected s =
    let indices = valid_from 0 s.items in
    ltb 0 (length indices) && all (is_selected s.selected) indices

unfoldable pub toggle_select_all_valid : BulkSelection → BulkSelection
unfolding is_all_valid_selected
toggle_select_all_valid s = record s {
  selected = if is_all_valid_selected s then [] else valid_from 0 s.items;
}

unfoldable pub toggle_row_selection : ℕ → BulkSelection → BulkSelection
toggle_row_selection index s = record s {
  selected =
      if is_selected s.selected index
      then select (λ i. not (i == index)) s.selected
      else s.selected ++ index ∷ [];
}

pub record CreateTeamInput : Type 0 where
  pub name : Text
  pub members : Option (List TeamMember)

-- What `handleSubmit` does: a local error, or the teams that are handed to `onSubmit`.
pub data Submission : Type 0 where
  local_error : Text → Submission
  submitted : List CreateTeamInput → Submission

abbrev pub input_of : ParsedTeamItem → CreateTeamInput
input_of item = record {
  name = item.name;
  members = if ltb 0 (length item.members) then some item.members else none;
}

unfoldable pub handle_submit : BulkSelection → Submission
unfolding selected_from
handle_submit s =
    let chosen = selected_from 0 s.selected s.items in
    if length s.items == 0
    then local_error (codes "Paste rows or upload a CSV file first.")
    else if length chosen == 0
    then local_error (codes "Select at least one valid team to import.")
    else submitted (map input_of chosen)
