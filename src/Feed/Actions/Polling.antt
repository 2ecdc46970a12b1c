-- ===== src/Feed/Actions/Polling.antt =====
-- Polling takes the active submissions in turn.
use native.Mathlib.Nat.{add-mod-mod, mod-add-mod, add-mod_right, mod-eq_of_lt, mod-lt}
use algo_test.Prelude.{
  ℕ, ◌+◌, ◌-◌, ◌%◌, ◌<◌, ◌≡◌, ◌∙◌, sym, ap, String, List, length, get_elem?, arith,
}
use algo_test.Feed.Actions.{poll_target}

-- How many rounds after the count `p` the place `i` of `n` has its turn.
abbrev rounds_until : ℕ → ℕ → ℕ → ℕ
rounds_until n p i = (i + n - p % n) % n

turn : (n p i : ℕ) → i < n → (p + rounds_until n p i) % n ≡ i
turn n p i h =
    let below : p % n < n = mod-lt p (omega arith) in
    let total : p % n + (i + n - p % n) ≡ i + n = omega arith in
    add-mod-mod p (i + n - p % n) n
    ∙ sym (mod-add-mod p n (i + n - p % n))
    ∙ ap (λ (m : ℕ). m % n) total
    ∙ add-mod_right i n
    ∙ mod-eq_of_lt h

-- Whatever the count of rounds is, each of the active ids is polled within as many rounds as there
-- are ids.
pub poll_target_fair :
    (ids : List String) (index i : ℕ)
    → i < length ids
    → (k : ℕ) × (k < length ids) × (poll_target ids (index + k) ≡ get_elem? ids i)
unfolding poll_target
poll_target_fair ids index i h = (
  rounds_until (length ids) index i,
  mod-lt _ (omega arith),
  ap (get_elem? ids) (turn (length ids) index i h),
)
