-- ===== src/TestCases/Pairs/Names.antt =====
-- The names of the files in a list, and how often one is among them.
use algo_test.Prelude.{
  ℕ, suc, ◌+◌, ◌≡◌, refl, ap, List, [], ◌∷◌, ◌++◌, Text, text_eq, if◌then◌else◌, arith,
}
use algo_test.TestCases.Pairs.{PairedTestFiles}

-- How often the text is among the others.
unfoldable pub occurrences : Text → List Text → ℕ
occurrences name [] = 0
occurrences name (other ∷ others) =
    let rest = occurrences name others in if text_eq other name then suc rest else rest

-- The names of the files of the pairs.
unfoldable pub names_of : List PairedTestFiles → List Text
names_of [] = []
names_of (pair ∷ pairs) = pair.input_file.name ∷ pair.expected_file.name ∷ names_of pairs

pub names_of-append :
    (pairs more : List PairedTestFiles) → names_of (pairs ++ more) ≡ names_of pairs ++ names_of more
unfolding names_of
names_of-append [] more = refl
names_of-append (pair ∷ pairs) more =
    ap (λ names. pair.input_file.name ∷ pair.expected_file.name ∷ names)
      (names_of-append pairs more)

pub occurrences-append :
    (name : Text) (names more : List Text)
    → occurrences name (names ++ more) ≡ occurrences name names + occurrences name more
unfolding occurrences
occurrences-append name [] more = omega arith
occurrences-append name (other ∷ names) more = ground (arith, occurrences-append name names more)
