-- ===== src/Csv/Rows.antt =====
-- Which rows of a roster count as valid.
use algo_test.Prelude.{
  not, none, some, leb, length, get_elem?, ◌==◌, Bool-cases, inl, inr, ◌≡◌, refl, Bool, true, false,
  Option, List, [], ◌∷◌, map, All, Text, is_blank, is_some, arith, ◌↔◌,
}
use algo_test.Csv.{
  ParsedCsvRow, Columns, row_of, columns, non_empty, data_lines, parse_csv_input,
  split_delimited_line, lines_of,
}

-- The text is there and not empty.
abbrev pub has_text : Option Text → Bool
has_text none = false
has_text (some s) = not (is_blank s)

-- A row counts as valid, and carries no error, just when its user name and its team are not empty.
abbrev pub IsChecked : ParsedCsvRow → Type 0
IsChecked row =
    ((row.is_valid ≡ true) ↔ (is_blank row.username ≡ false) × (has_text row.team_name ≡ true))
    × ((row.is_valid ≡ true) ↔ (is_some row.validation_error ≡ false))

has_text-non_empty : (t : Option Text) → has_text (non_empty t) ≡ is_some (non_empty t)
has_text-non_empty none = refl
has_text-non_empty (some []) = refl
has_text-non_empty (some (c ∷ s)) = refl

has_text-columns :
    (single : Bool) (team : Option Text) (parts : List Text)
    → has_text (columns single team parts).team_name ≡ is_some (columns single team parts).team_name
unfolding columns
has_text-columns true team parts = has_text-non_empty team
has_text-columns false team parts = elim (Bool-cases (leb 3 (length parts))) [
  | inl long ↦ rw long (has_text-non_empty (get_elem? parts 2))
  | inr short ↦ elim (Bool-cases (length parts == 2)) [
    | inl two ↦ rw (short, two) (has_text-non_empty (get_elem? parts 1))
    | inr one ↦ rw (short, one) refl
  ]
]

row_of-IsChecked : (c : Columns) → has_text c.team_name ≡ is_some c.team_name → IsChecked (row_of c)
unfolding row_of
row_of-IsChecked c team = rw team (ground arith)

map-All :
    {A : Type 0} {B : Type 0} (P : B → Type 0) (f : A → B)
    → ((a : A) → P (f a))
    → (xs : List A) → All P (map f xs)
map-All P f h [] = tt
map-All P f h (a ∷ rest) = (h a, map-All P f h rest)

-- Every row that `parseCsvInput` returns is valid just when its user name and its team are not
-- empty, and carries a validation error just when it is not valid.
pub parse_csv_input-IsChecked :
    (text : Text) (single : Bool) (team : Option Text)
    → All IsChecked (parse_csv_input text single team)
unfolding parse_csv_input
parse_csv_input-IsChecked text single team =
    map-All IsChecked _
      (λ line.
        row_of-IsChecked (columns single team (split_delimited_line line))
          (has_text-columns single team (split_delimited_line line)))
      (data_lines (lines_of text))
