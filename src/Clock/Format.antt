-- ===== src/Clock/Format.antt =====
-- `pad` and `formatTime` of competitor-frontend/src/components/portal/contest-provider.tsx.
pub mod RoundTrip
use algo_test.Prelude.{
  ℕ, ◌/◌, ◌%◌, Bool, true, false, List, [], ◌∷◌, ◌++◌, if◌then◌else◌, Text, codes, decimal, ltb,
  length,
}

-- `num.toString().padStart(2, "0")`
abbrev pad_start : Text → Text
pad_start [] = codes "00"
pad_start (c ∷ []) = b'0' ∷ c ∷ []
pad_start (c ∷ d ∷ s) = c ∷ d ∷ s

unfoldable pub pad : ℕ → Text
pad num = pad_start (decimal num)

-- A negative number of seconds, which the source prints as 0, is no natural number.
unfoldable pub format_time : ℕ → Text
format_time total_seconds =
    let hours = total_seconds / 3600 in
    let minutes = total_seconds % 3600 / 60 in
    let seconds = total_seconds % 60 in
    if ltb 0 hours
    then pad hours ++ (codes ":" ++ (pad minutes ++ (codes ":" ++ pad seconds)))
    else pad minutes ++ (codes ":" ++ pad seconds)
