-- ===== src/Csv/Quoting.antt =====
-- Quoted fields are read back.
use algo_test.Prelude.{
  ℕ, ◌≡◌, refl, ◌∙◌, ap, Bool, true, false, ◌||◌, List, [], ◌∷◌, ◌++◌, map, ◌==◌, ==_iff,
  if◌then◌else◌, Text, codes, trim, join, any, All, append_assoc, append-nil, Bool-cases, inl, inr,
  arith, sym,
}
use algo_test.Csv.{split_fields, split_delimited_line}

-- Each quote in the field is doubled.
unfoldable pub double_quotes : Text → Text
double_quotes [] = []
double_quotes (c ∷ s) = if c == b'"' then b'"' ∷ b'"' ∷ double_quotes s else c ∷ double_quotes s

unfoldable pub quote : Text → Text
unfolding double_quotes
quote field = b'"' ∷ (double_quotes field ++ b'"' ∷ [])

-- The fields, quoted, with commas in between.
unfoldable pub quoted_line : List Text → Text
unfolding quote
quoted_line fields = join (codes ",") (map quote fields)

-- What follows a field: the end of the line, or a comma and the other fields.
abbrev rest_fields : Text → Text → List Text
rest_fields field [] = trim field ∷ []
rest_fields field (c ∷ s) = trim field ∷ split_fields 44 false [] s

-- Not a quote: the end, or a comma.
abbrev IsEnd : Text → Type 0
IsEnd [] = Unit
IsEnd (c ∷ s) = (c == 44) ≡ true

split_fields-inside :
    (field : Text) (c : ℕ) (s : Text)
    → (c == b'"') ≡ false
    → split_fields 44 true field (c ∷ s) ≡ split_fields 44 true (field ++ c ∷ []) s
unfolding split_fields
split_fields-inside field c [] h = ground arith
split_fields-inside field c (d ∷ s) h = ground arith

split_fields-doubled :
    (field s : Text)
    → split_fields 44 true field (b'"' ∷ b'"' ∷ s) ≡ split_fields 44 true (field ++ b'"' ∷ []) s
unfolding split_fields
split_fields-doubled field s = refl

split_fields-opening :
    (field s : Text) → split_fields 44 false field (b'"' ∷ s) ≡ split_fields 44 true field s
unfolding split_fields
split_fields-opening field [] = refl
split_fields-opening field (d ∷ s) = refl

split_fields-closing :
    (field s : Text) → IsEnd s → split_fields 44 true field (b'"' ∷ s) ≡ rest_fields field s
unfolding split_fields
split_fields-closing field [] h = refl
split_fields-closing field (c ∷ []) h = ground arith
split_fields-closing field (c ∷ d ∷ s) h = ground arith

split_fields-quoted :
    (read field s : Text)
    → IsEnd s
    → split_fields 44 true read (double_quotes field ++ b'"' ∷ s) ≡ rest_fields (read ++ field) s
unfolding double_quotes
split_fields-quoted read [] s h = rw append-nil (split_fields-closing read s h)
split_fields-quoted read (c ∷ field) s h = elim (Bool-cases (c == b'"')) [
  | inl e ↦ rw e (
      split_fields-doubled read (double_quotes field ++ b'"' ∷ s)
      ∙ split_fields-quoted (read ++ b'"' ∷ []) field s h
      ∙ ap (λ r. rest_fields r s)
          (append_assoc read (b'"' ∷ []) field
            ∙ ap (λ (q : ℕ). read ++ q ∷ field) (sym ((==_iff c b'"').0 e))))
  | inr e ↦ rw e (
      split_fields-inside read c (double_quotes field ++ b'"' ∷ s) e
      ∙ split_fields-quoted (read ++ c ∷ []) field s h
      ∙ ap (λ r. rest_fields r s) (append_assoc read (c ∷ []) field))
]

split_fields-quoted_line :
    (field : Text) (fields : List Text)
    → split_fields 44 false [] (quoted_line (field ∷ fields)) ≡ map trim (field ∷ fields)
unfolding quoted_line
split_fields-quoted_line field [] = split_fields-opening [] _ ∙ split_fields-quoted [] field [] tt
split_fields-quoted_line field (next ∷ fields) =
    ap (λ t. split_fields 44 false [] (b'"' ∷ t)) (append_assoc (double_quotes field) (b'"' ∷ []) _)
    ∙ split_fields-opening [] _
    ∙ split_fields-quoted [] field (44 ∷ quoted_line (next ∷ fields)) refl
    ∙ ap (λ r. trim field ∷ r) (split_fields-quoted_line next fields)

abbrev has_tab : Text → Bool
has_tab s = any (λ c. c == 9) s

has_tab-append : (s t : Text) → has_tab (s ++ t) ≡ (has_tab s || has_tab t)
has_tab-append [] t = refl
has_tab-append (c ∷ s) t = ground (arith, has_tab-append s t)

has_tab-double_quotes : (s : Text) → has_tab (double_quotes s) ≡ has_tab s
unfolding double_quotes
has_tab-double_quotes [] = refl
has_tab-double_quotes (c ∷ s) = ground (arith, has_tab-double_quotes s)

has_tab-quote : (s : Text) → has_tab (quote s) ≡ has_tab s
unfolding quote
has_tab-quote s =
    rw (has_tab-append (double_quotes s) (b'"' ∷ []), has_tab-double_quotes s) (ground arith)

has_tab-quoted_line :
    (fields : List Text)
    → All (λ field. has_tab field ≡ false) fields
    → has_tab (quoted_line fields) ≡ false
unfolding quoted_line
has_tab-quoted_line [] h = refl
has_tab-quoted_line (field ∷ []) (h, _) = has_tab-quote field ∙ h
has_tab-quoted_line (field ∷ next ∷ fields) (h, hs) = rw (
  has_tab-append (quote field) (44 ∷ quoted_line (next ∷ fields)),
  has_tab-quote field,
  h,
  has_tab-quoted_line (next ∷ fields) hs,
)

-- A line of quoted fields with commas in between, with no tab in a field, is split into these
-- fields again, each trimmed, whatever quotes and commas they hold.
pub split_delimited_line-quoted_line :
    (field : Text) (fields : List Text)
    → All (λ f. has_tab f ≡ false) (field ∷ fields)
    → split_delimited_line (quoted_line (field ∷ fields)) ≡ map trim (field ∷ fields)
unfolding split_delimited_line
split_delimited_line-quoted_line field fields h =
    rw (has_tab-quoted_line (field ∷ fields) h) (split_fields-quoted_line field fields)
