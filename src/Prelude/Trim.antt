-- ===== src/Prelude/Trim.antt =====
-- What `trim` leaves, and `split` of one line.
use mathlib.Core.List.{reverse, reverse-cons}
use mathlib.Core.Path.{◌≡◌, refl}
use mathlib.Core.Bool.{true, false}
use mathlib.Core.List.{[], ◌∷◌, ◌++◌}
use Prim.Native.Nat.{ℕ}
use native.Mathlib.Omega.{arith}
use algo_test.Prelude.Tests.{◌==◌, if◌then◌else◌}
use algo_test.Prelude.Lists.{All}
use algo_test.Prelude.Texts.{Text, is_space, is_blank, trim_start, trim, split_at}

is_blank-append_last : (s : Text) (c : ℕ) → is_blank (s ++ c ∷ []) ≡ false
is_blank-append_last [] c = refl
is_blank-append_last (d ∷ s) c = refl

trim_start-append_last :
    (s : Text) (c : ℕ) → is_space c ≡ false → is_blank (trim_start (s ++ c ∷ [])) ≡ false
unfolding trim_start
trim_start-append_last [] c h = rw h
trim_start-append_last (d ∷ s) c h =
    elim (is_space d)
      as (λ b. is_blank (if b then trim_start (s ++ c ∷ []) else d ∷ (s ++ c ∷ [])) ≡ false) [
        | true ↦ trim_start-append_last s c h
        | false ↦ refl
      ]

is_blank-reverse : (s : Text) → is_blank s ≡ false → is_blank (reverse s) ≡ false
is_blank-reverse [] h = h
is_blank-reverse (c ∷ s) h = rw reverse-cons (is_blank-append_last (reverse s) c)

-- A text that begins with a character that is no space is not blank when it is trimmed.
pub is_blank-trim : (c : ℕ) (s : Text) → is_space c ≡ false → is_blank (trim (c ∷ s)) ≡ false
unfolding trim trim_start
is_blank-trim c s h =
    rw (h, reverse-cons)
      (is_blank-reverse (trim_start (reverse s ++ c ∷ [])) (trim_start-append_last (reverse s) c h))

-- The text has no code unit `sep`.
abbrev pub Lacks : ℕ → Text → Type 0
Lacks sep = All (λ c. (c == sep) ≡ false)

pub split_at-line : (sep : ℕ) (s : Text) → Lacks sep s → split_at sep s ≡ s ∷ []
unfolding split_at
split_at-line sep [] h = refl
split_at-line sep (c ∷ s) (h, k) = rw (h, split_at-line sep s k)

pub split_at-append :
    (sep : ℕ) (s t : Text) → Lacks sep s → split_at sep (s ++ sep ∷ t) ≡ s ∷ split_at sep t
unfolding split_at
split_at-append sep [] t h = ground arith
split_at-append sep (c ∷ s) t (h, k) = rw (h, split_at-append sep s t k)
