-- ===== src/Tests/AdminRuns.antt =====
-- A quoted line and a roster.
use algo_test.Prelude.{◌≡◌, refl, false, none, List, [], ◌∷◌, All, map, codes, trim, Text}
use algo_test.Csv.{split_delimited_line, parse_csv_input}
use algo_test.Csv.Quoting.{quoted_line, split_delimited_line-quoted_line}
use algo_test.Csv.Rows.{IsChecked, parse_csv_input-IsChecked}

abbrev fields : List Text
fields = codes "Walker, Alice" ∷ codes "the \"A\" team" ∷ []

split_delimited_line-quoted_line_example :
    split_delimited_line (quoted_line fields) ≡ map trim fields
split_delimited_line-quoted_line_example =
    split_delimited_line-quoted_line (codes "Walker, Alice") (codes "the \"A\" team" ∷ [])
      (refl, (refl, tt))

parse_csv_input-IsChecked_example :
    All IsChecked (parse_csv_input (codes "al,Al,Alpha\nbo") false none)
parse_csv_input-IsChecked_example = parse_csv_input-IsChecked (codes "al,Al,Alpha\nbo") false none
