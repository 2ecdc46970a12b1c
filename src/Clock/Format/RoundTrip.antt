-- ===== src/Clock/Format/RoundTrip.antt =====
-- A printed time can be read back.
use algo_test.Prelude.{
  ℕ, zero, suc, ◌+◌, ◌*◌, ◌/◌, ◌≡◌, refl, ◌∙◌, List, [], ◌∷◌, ◌++◌, ltb, Text, decimal,
  decimal_from, split_at, All-append, Bool-cases, inl, inr, arith,
}
use algo_test.Prelude.Decimal.{read_decimal, read_decimal-decimal}
use algo_test.Prelude.Trim.{Lacks, split_at-line, split_at-append}
use algo_test.Clock.Format.{pad_start, pad, format_time}

-- Reads parts in base 60.
unfoldable pub read_parts : ℕ → List Text → ℕ
read_parts n [] = n
read_parts n (part ∷ parts) = read_parts (n * 60 + read_decimal 0 part) parts

-- The number of seconds that a text of parts between colons stands for.
unfoldable pub read_time : Text → ℕ
unfolding read_parts
read_time s = read_parts 0 (split_at b':' s)

decimal_from-Lacks : (fuel n : ℕ) → Lacks b':' (decimal_from fuel n)
unfolding decimal_from
decimal_from-Lacks zero n = tt
decimal_from-Lacks (suc fuel) n = elim (Bool-cases (ltb n 10)) [
  | inl e ↦ rw e (ground arith, tt)
  | inr e ↦ rw e (
      All-append _ (decimal_from fuel (n / 10)) _ (decimal_from-Lacks fuel (n / 10))
        (ground arith, tt))
]

pad_start-Lacks : (s : Text) → Lacks b':' s → Lacks b':' (pad_start s)
pad_start-Lacks [] h = ground arith
pad_start-Lacks (c ∷ []) h = (refl, h)
pad_start-Lacks (c ∷ d ∷ s) h = h

pad-Lacks : (n : ℕ) → Lacks b':' (pad n)
unfolding pad
pad-Lacks n = pad_start-Lacks (decimal n) (unfold decimal in decimal_from-Lacks (suc n) n)

read_decimal-pad_start : (s : Text) → read_decimal 0 (pad_start s) ≡ read_decimal 0 s
unfolding read_decimal
read_decimal-pad_start [] = refl
read_decimal-pad_start (c ∷ []) = refl
read_decimal-pad_start (c ∷ d ∷ s) = refl

read_decimal-pad : (n : ℕ) → read_decimal 0 (pad n) ≡ n
unfolding pad
read_decimal-pad n = read_decimal-pad_start (decimal n) ∙ read_decimal-decimal n

read_time-one : (a b : ℕ) → read_time (pad a ++ b':' ∷ pad b) ≡ a * 60 + b
unfolding read_time
read_time-one a b =
    rw
      (
        split_at-append b':' (pad a) (pad b) (pad-Lacks a),
        split_at-line b':' (pad b) (pad-Lacks b),
        read_decimal-pad a,
        read_decimal-pad b,
      )
      (omega arith)

read_time-two :
    (a b c : ℕ) → read_time (pad a ++ b':' ∷ (pad b ++ b':' ∷ pad c)) ≡ (a * 60 + b) * 60 + c
unfolding read_time
read_time-two a b c =
    rw
      (
        split_at-append b':' (pad a) (pad b ++ b':' ∷ pad c) (pad-Lacks a),
        split_at-append b':' (pad b) (pad c) (pad-Lacks b),
        split_at-line b':' (pad c) (pad-Lacks c),
        read_decimal-pad a,
        read_decimal-pad b,
        read_decimal-pad c,
      )
      (omega arith)

-- The time that is printed, with its hours where there are any, stands for the seconds that it was
-- printed for.
pub read_time-format_time : (n : ℕ) → read_time (format_time n) ≡ n
unfolding format_time
read_time-format_time n = elim (Bool-cases (ltb 0 (n / 3600))) [
  | inl e ↦ rw e (read_time-two _ _ _ ∙ omega arith)
  | inr e ↦ rw e (read_time-one _ _ ∙ ground arith)
]
