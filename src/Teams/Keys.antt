-- ===== src/Teams/Keys.antt =====
-- Texts that differ from one another and from those in a list.
use algo_test.Prelude.{
  ◌≡◌, refl, false, List, [], ◌∷◌, Text, text_eq, text_eq_iff, has_text, All, arith,
}

-- The texts are all different.
abbrev pub AreDistinct : List Text → Type 0
AreDistinct [] = Unit
AreDistinct (key ∷ keys) = (has_text key keys ≡ false) × AreDistinct keys

-- None of the texts is in the list.
abbrev pub AreMissing : List Text → List Text → Type 0
AreMissing taken keys = All (λ key. has_text key taken ≡ false) keys

pub text_eq_comm : (s t : Text) → text_eq s t ≡ text_eq t s
text_eq_comm s t = ground (arith, text_eq_iff s t, text_eq_iff t s)

-- Keys that are missing from a list that begins with `key` do not hold it, and are missing from
-- the rest of the list.
pub AreMissing-cons :
    (key : Text) (taken keys : List Text)
    → AreMissing (key ∷ taken) keys
    → (has_text key keys ≡ false) × AreMissing taken keys
AreMissing-cons key taken [] h = (refl, tt)
AreMissing-cons key taken (k ∷ keys) (h, hs) =
    let (apart, rest) = AreMissing-cons key taken keys hs in
    (ground (arith, text_eq_comm key k, apart), (ground arith, rest))
