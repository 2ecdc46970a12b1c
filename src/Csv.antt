-- ===== src/Csv.antt =====
-- `splitDelimitedLine` of admin-frontend/src/lib/csv-utils.ts and `parseCsvInput` of
-- admin-frontend/src/components/users/csv-utils.ts, which reads a roster.
pub mod Quoting
pub mod Rows
use algo_test.Prelude.{
  to_lower, includes, ℕ, ◌==◌, Bool, true, false, ◌&&◌, ◌||◌, not, Option, none, some, List, [],
  ◌∷◌, ◌++◌, map, select, if◌then◌else◌, Text, codes, trim, is_blank, any, starts_with, split_at,
  leb, is_some, get_elem?, get_or_else, length, ◌+◌,
}

-- The delimiter of a line.
unfoldable pub delimiter_of : Text → ℕ
delimiter_of line = if any (λ c. c == 9) line then 9 else 44

-- The loop over the characters, with `currentField` and `insideQuotes`.
unfoldable pub split_fields : ℕ → Bool → Text → Text → List Text
split_fields delimiter inside field [] = trim field ∷ []
split_fields delimiter inside field (c ∷ []) =
    if c == b'"'
    then trim field ∷ []
    else if c == delimiter && not inside
    then trim field ∷ trim [] ∷ []
    else trim (field ++ c ∷ []) ∷ []
split_fields delimiter inside field (c ∷ d ∷ s) =
    let doubled = split_fields delimiter inside (field ++ b'"' ∷ []) s in
    let toggled = split_fields delimiter (not inside) field (d ∷ s) in
    let closed = trim field ∷ split_fields delimiter inside [] (d ∷ s) in
    let longer = split_fields delimiter inside (field ++ c ∷ []) (d ∷ s) in
    if c == b'"'
    then if inside && d == b'"' then doubled else toggled
    else if c == delimiter && not inside
    then closed
    else longer

unfoldable pub split_delimited_line : Text → List Text
unfolding split_fields delimiter_of
split_delimited_line line = split_fields (delimiter_of line) false [] line

pub record ParsedCsvRow : Type 0 where
  pub username : Text
  pub display_name : Option Text
  pub team_name : Option Text
  pub password : Option Text
  pub is_valid : Bool
  pub validation_error : Option Text

-- `x || undefined`
abbrev pub non_empty : Option Text → Option Text
non_empty none = none
non_empty (some s) = if is_blank s then none else some s

-- The part of a line, unless it is missing or empty.
abbrev pub part : List Text → ℕ → Option Text
part parts i = non_empty (get_elem? parts i)

-- `parts[i] || ""`
abbrev pub part_or_empty : List Text → ℕ → Text
part_or_empty parts i = get_or_else (part parts i) []

-- The columns of a row: username, display name, team and password.
pub record Columns : Type 0 where
  pub username : Text
  pub display_name : Option Text
  pub team_name : Option Text
  pub password : Option Text

unfoldable pub columns : Bool → Option Text → List Text → Columns
columns true single_team parts = record {
  username = part_or_empty parts 0;
  display_name = part parts 1;
  team_name = non_empty single_team;
  password = part parts 2;
}
columns false single_team parts = record {
  username = part_or_empty parts 0;
  display_name = if leb 3 (length parts) then part parts 1 else none;
  team_name =
      if leb 3 (length parts)
      then part parts 2
      else if length parts == 2
      then part parts 1
      else none;
  password = if leb 4 (length parts) then part parts 3 else none;
}

unfoldable pub row_of : Columns → ParsedCsvRow
row_of c = record {
  username = c.username;
  display_name = c.display_name;
  team_name = c.team_name;
  password = c.password;
  is_valid = not (is_blank c.username) && is_some c.team_name;
  validation_error =
      if is_blank c.username
      then some (codes "Missing username")
      else if not (is_some c.team_name)
      then some (codes "Missing team name")
      else none;
}

-- `split(/\r?\n/)`: what is split at line feeds is trimmed afterwards, so a carriage return in
-- front of a line feed is dropped there.
unfoldable pub lines_of : Text → List Text
lines_of text = select (λ line. not (is_blank line)) (map trim (split_at 10 text))

unfoldable pub has_header : Text → Bool
unfolding includes
has_header first_line =
    let line = map to_lower first_line in
    includes line (codes "username")
    || (includes line (codes "team")
        || (includes line (codes "display_name") || includes line (codes "name")))

unfoldable pub data_lines : List Text → List Text
data_lines [] = []
data_lines (first ∷ lines) = if has_header first then lines else first ∷ lines

unfoldable pub parse_csv_input : Text → Bool → Option Text → List ParsedCsvRow
unfolding columns row_of lines_of has_header data_lines split_delimited_line
parse_csv_input text is_single_team_mode single_team_name =
    map (λ line. row_of (columns is_single_team_mode single_team_name (split_delimited_line line)))
      (data_lines (lines_of text))
