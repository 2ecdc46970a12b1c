-- ===== src/Prelude/Decimal.antt =====
-- The decimal digits of a number, JavaScript's `n.toString()` and `${n}` for a natural number.
use Prim.Native.Nat.{ℕ, zero, suc, ◌+◌, ◌/◌, ◌%◌, ◌*◌, ◌<◌, ◌-◌}
use mathlib.Core.List.{[], ◌∷◌, ◌++◌}
use mathlib.Core.Path.{◌≡◌, refl}
use mathlib.Core.Logic.{inl, inr}
use native.Mathlib.Omega.{arith}
use mathlib.Core.Bool.{Bool, true, ◌&&◌}
use algo_test.Prelude.Lists.{All, All-append}
use algo_test.Prelude.Tests.{ltb, leb, if◌then◌else◌, Bool-cases}
use algo_test.Prelude.Texts.{Text}

-- With as much fuel as the number is great, the fuel does not run out.
unfoldable pub decimal_from : ℕ → ℕ → Text
decimal_from zero n = []
decimal_from (suc fuel) n =
    let front = decimal_from fuel (n / 10) in
    if ltb n 10 then (b'0' + n) ∷ [] else front ++ (b'0' + n % 10) ∷ []

unfoldable pub decimal : ℕ → Text
unfolding decimal_from
decimal n = decimal_from (suc n) n

-- The number that a text of digits stands for, read from the left.
unfoldable pub read_decimal : ℕ → Text → ℕ
read_decimal n [] = n
read_decimal n (c ∷ s) = read_decimal (n * 10 + (c - b'0')) s

pub read_decimal-append :
    (n : ℕ) (s t : Text) → read_decimal n (s ++ t) ≡ read_decimal (read_decimal n s) t
unfolding read_decimal
read_decimal-append n [] t = refl
read_decimal-append n (c ∷ s) t = read_decimal-append (n * 10 + (c - b'0')) s t

read_decimal-decimal_from : (fuel n : ℕ) → n < fuel → read_decimal 0 (decimal_from fuel n) ≡ n
unfolding decimal_from read_decimal
read_decimal-decimal_from zero n h = elim h [ ]
read_decimal-decimal_from (suc fuel) n h = elim (Bool-cases (ltb n 10)) [
  | inl e ↦ rw e (ground arith)
  | inr e ↦
      rw
        (
          e,
          read_decimal-append 0 (decimal_from fuel (n / 10)) ((b'0' + n % 10) ∷ []),
          read_decimal-decimal_from fuel (n / 10) (ground arith),
        )
        (omega arith)
]

-- The digits of a number stand for that number.
pub read_decimal-decimal : (n : ℕ) → read_decimal 0 (decimal n) ≡ n
unfolding decimal
read_decimal-decimal n = read_decimal-decimal_from (suc n) n (omega arith)

abbrev pub is_digit : ℕ → Bool
is_digit c = leb b'0' c && leb c b'9'

-- The digits at the start of a text.
unfoldable pub digits : Text → Text
digits [] = []
digits (c ∷ s) = let rest = digits s in if is_digit c then c ∷ rest else []

abbrev AreDigits : Text → Type 0
AreDigits = All (λ c. is_digit c ≡ true)

decimal_from-AreDigits : (fuel n : ℕ) → AreDigits (decimal_from fuel n)
unfolding decimal_from
decimal_from-AreDigits zero n = tt
decimal_from-AreDigits (suc fuel) n = elim (Bool-cases (ltb n 10)) [
  | inl e ↦ rw e (ground arith, tt)
  | inr e ↦ rw e (
      All-append (λ c. is_digit c ≡ true) (decimal_from fuel (n / 10)) ((b'0' + n % 10) ∷ [])
        (decimal_from-AreDigits fuel (n / 10)) (ground arith, tt))
]

digits-AreDigits : (s : Text) → AreDigits s → digits s ≡ s
unfolding digits
digits-AreDigits [] h = refl
digits-AreDigits (c ∷ s) (d, h) = rw (d, digits-AreDigits s h) refl

-- A printed number is digits only.
pub digits-decimal : (n : ℕ) → digits (decimal n) ≡ decimal n
unfolding decimal
digits-decimal n = digits-AreDigits (decimal n) (decimal_from-AreDigits (suc n) n)

first_digit :
    (s : Text) (c : ℕ)
    → AreDigits (s ++ c ∷ [])
    → (d : ℕ) × (rest : Text) × (s ++ c ∷ [] ≡ d ∷ rest) × (is_digit d ≡ true)
first_digit [] c (h, k) = (c, [], refl, h)
first_digit (d ∷ s) c (h, k) = (d, s ++ c ∷ [], refl, h)

-- It begins with one.
pub decimal-cons : (n : ℕ) → (d : ℕ) × (rest : Text) × (decimal n ≡ d ∷ rest) × (is_digit d ≡ true)
unfolding decimal decimal_from
decimal-cons n = elim (Bool-cases (ltb n 10)) [
  | inl e ↦ rw e (b'0' + n, [], refl, ground arith)
  | inr e ↦ rw e (
      first_digit (decimal_from n (n / 10)) (b'0' + n % 10) (
        All-append (λ c. is_digit c ≡ true) (decimal_from n (n / 10)) ((b'0' + n % 10) ∷ [])
          (decimal_from-AreDigits n (n / 10)) (ground arith, tt)))
]
