-- ===== src/TestCases/Pairs.antt =====
-- `matchTestFilePairs` of admin-frontend/src/lib/testcase-utils.ts: the files that are dropped
-- together are paired by what is left of their names. `toLowerCase` is that of ASCII, and
-- `localeCompare` is an argument: whether one text comes no later than another.
pub mod Roles
pub mod Names
pub mod Accounted
use algo_test.Prelude.{
  is_digit, digits, read_decimal, ℕ, suc, zero, ◌+◌, ◌*◌, ◌-◌, ◌==◌, Bool, true, false, ◌&&◌, ◌||◌,
  not, Option, none, some, List, [], ◌∷◌, ◌++◌, map, if◌then◌else◌, Text, codes, to_lower, includes,
  starts_with, text_eq, is_blank, is_some, or_else, leb, ltb, length, drop,
}
use mathlib.Core.List.{reverse}
use algo_test.TestCases.Bank.{TestFile}

abbrev pub lower : Text → Text
lower name = map to_lower name

unfoldable pub is_input : Text → Bool
is_input name =
    includes (lower name) (codes "in")
    && (not (includes (lower name) (codes "out")) && not (includes (lower name) (codes "ans")))

unfoldable pub is_output : Text → Bool
is_output name =
    includes (lower name) (codes "out")
    || (includes (lower name) (codes "ans") || includes (lower name) (codes "expected"))

-- The first match of `\d+`, empty where there is none.
unfoldable pub first_digits : Text → Text
unfolding digits
first_digits [] = []
first_digits (c ∷ s) = let rest = first_digits s in if is_digit c then digits (c ∷ s) else rest

unfoldable pub number_of : Text → ℕ
unfolding read_decimal first_digits
number_of name =
    let found = first_digits (lower name) in if is_blank found then 999999 else read_decimal 0 found

-- `/\.(txt|in|out|ans|dat)$/`
abbrev pub is_extension : Text → Bool
is_extension s =
    text_eq s (codes ".txt")
    || (text_eq s (codes ".in")
        || (text_eq s (codes ".out") || (text_eq s (codes ".ans") || text_eq s (codes ".dat"))))

unfoldable pub strip_extension : Text → Text
strip_extension [] = []
strip_extension (c ∷ s) =
    let rest = strip_extension s in if is_extension (c ∷ s) then [] else c ∷ rest

-- `[._-]`
abbrev pub is_separator : ℕ → Bool
is_separator c = c == b'.' || (c == b'_' || c == b'-')

-- How much a word takes with the separator, or the end, behind it.
abbrev pub word_length : Text → Text → Option ℕ
word_length s word =
    if starts_with s word
    then elim (drop (length word) s) [
      | [] ↦ some (length word)
      | c ∷ rest ↦ if is_separator c then some (length word + 1) else none
    ]
    else none

-- `(input|output|expected|answer|in|out|ans)`, the first that fits.
abbrev pub words_length : Text → Option ℕ
words_length s = or_else (word_length s (codes "input")) (
    or_else (word_length s (codes "output")) (
      or_else (word_length s (codes "expected")) (
        or_else (word_length s (codes "answer")) (
          or_else (word_length s (codes "in"))
            (or_else (word_length s (codes "out")) (word_length s (codes "ans")))))))

abbrev pub behind_separator : Text → Option ℕ
behind_separator [] = none
behind_separator (c ∷ s) =
    if is_separator c then elim (words_length s) [ none ↦ none | some n ↦ some (suc n) ] else none

-- The length of a match here; `^` is the start of the text alone.
abbrev pub match_length : Bool → Text → Option ℕ
match_length is_start s = or_else (if is_start then words_length s else none) (behind_separator s)

-- The global replacement of the words by `_`; the first code units may belong to a match already.
unfoldable pub replace_words : ℕ → Bool → Text → Text
replace_words taken is_start [] = []
replace_words (suc taken) is_start (c ∷ s) = replace_words taken false s
replace_words zero is_start (c ∷ s) = elim (match_length is_start (c ∷ s)) [
  | none ↦ c ∷ replace_words zero false s
  | some n ↦ b'_' ∷ replace_words (n - 1) false s
]

abbrev pub starts_with_underscore : Text → Bool
starts_with_underscore [] = false
starts_with_underscore (c ∷ s) = c == b'_'

-- `.replace(/_+/g, "_")`
unfoldable pub collapse_underscores : Text → Text
collapse_underscores [] = []
collapse_underscores (c ∷ s) =
    let rest = collapse_underscores s in
    if c == b'_' && starts_with_underscore s then rest else c ∷ rest

unfoldable pub drop_underscores : Text → Text
drop_underscores [] = []
drop_underscores (c ∷ s) = let rest = drop_underscores s in if c == b'_' then rest else c ∷ s

-- `.replace(/^_+|_+$/g, "")`
abbrev pub strip_underscores : Text → Text
strip_underscores s = reverse (drop_underscores (reverse (drop_underscores s)))

-- The `base` of `normalizeKey`.
unfoldable pub base_of : Text → Text
unfolding strip_extension replace_words collapse_underscores drop_underscores first_digits
base_of name =
    let base =
      strip_underscores
        (collapse_underscores (replace_words 0 true (strip_extension (lower name)))) in
    let found = first_digits (lower name) in
    if not (is_blank base)
    then base
    else if not (is_blank found)
    then codes "case_" ++ found
    else name

pub record FileGroup : Type 0 where
  pub key : Text
  pub input : Option TestFile
  pub expected : Option TestFile
  pub sort_key : ℕ

-- The slot that a file gets in its group.
unfoldable pub assign : TestFile → FileGroup → FileGroup
unfolding is_input is_output
assign file entry =
    if is_input file.name && not (is_some entry.input)
    then record entry { input = some file }
    else if is_output file.name && not (is_some entry.expected)
    then record entry { expected = some file }
    else if not (is_some entry.input)
    then record entry { input = some file }
    else if not (is_some entry.expected)
    then record entry { expected = some file }
    else entry

abbrev pub new_group : TestFile → FileGroup
new_group file = record {
  key = base_of file.name;
  input = none;
  expected = none;
  sort_key = number_of file.name;
}

-- One turn of the loop over the files.
unfoldable pub place_file : TestFile → List FileGroup → List FileGroup
unfolding assign base_of number_of
place_file file [] = assign file (new_group file) ∷ []
place_file file (g ∷ groups) =
    let rest = place_file file groups in
    if text_eq g.key (base_of file.name) then assign file g ∷ groups else g ∷ rest

unfoldable pub group_files : List TestFile → List FileGroup → List FileGroup
unfolding place_file
group_files [] groups = groups
group_files (file ∷ files) groups = group_files files (place_file file groups)

pub record PairedTestFiles : Type 0 where
  pub base_name : Text
  pub input_file : TestFile
  pub expected_file : TestFile
  pub total_size : ℕ

-- What a group gives: a pair, or the names of the files without a match.
abbrev pub pair_of : FileGroup → List PairedTestFiles
pair_of g = elim g.input [
  | none ↦ []
  | some i ↦ elim g.expected [
    | none ↦ []
    | some e ↦
        record {
          base_name = g.key;
          input_file = i;
          expected_file = e;
          total_size = i.size + e.size;
        }
        ∷ []
  ]
]

abbrev pub name_of : Option TestFile → List Text
name_of none = []
name_of (some file) = file.name ∷ []

abbrev pub unmatched_of : FileGroup → List Text
unmatched_of g =
    if is_some g.input && is_some g.expected then [] else name_of g.input ++ name_of g.expected

unfoldable pub pairs_of : List FileGroup → List PairedTestFiles
pairs_of [] = []
pairs_of (g ∷ groups) = pair_of g ++ pairs_of groups

unfoldable pub unmatched_from : List FileGroup → List Text
unmatched_from [] = []
unmatched_from (g ∷ groups) = unmatched_of g ++ unmatched_from groups

module _ (locale_le : Text → Text → Bool) where
  -- `a.sortKey - b.sortKey || a.key.localeCompare(b.key)` is at most 0.
  abbrev pub group_le : FileGroup → FileGroup → Bool
  group_le a b = ltb a.sort_key b.sort_key || (a.sort_key == b.sort_key && locale_le a.key b.key)

  -- The sort, which is stable.
  unfoldable pub insert_group : FileGroup → List FileGroup → List FileGroup
  insert_group g [] = g ∷ []
  insert_group g (h ∷ groups) =
      let rest = insert_group g groups in if group_le g h then g ∷ h ∷ groups else h ∷ rest

  unfoldable pub sort_groups : List FileGroup → List FileGroup
  unfolding insert_group
  sort_groups [] = []
  sort_groups (g ∷ groups) = insert_group g (sort_groups groups)

  unfoldable pub match_test_file_pairs : List TestFile → List PairedTestFiles × List Text
  unfolding group_files sort_groups pairs_of unmatched_from
  match_test_file_pairs files =
      let groups = sort_groups (group_files files []) in (pairs_of groups, unmatched_from groups)
