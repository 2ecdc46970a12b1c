-- ===== src/Clock/Tick/Thresholds.antt =====
-- The alerts of the remaining time.
use algo_test.Prelude.{ℕ, ◌≡◌, Bool, false, ◌&&◌, not, Option, some, List, [], ◌∷◌, ◌==◌, leb, All}
use algo_test.Clock.Types.{ContestAlert, Threshold}
use algo_test.Clock.Tick.{has_fired, threshold_alert}

-- The threshold is reached, and has not fired.
abbrev pub crosses : ℕ → List ℕ → Threshold → Bool
crosses remaining fired t = leb remaining t.seconds && not (has_fired t.seconds fired)

-- The alert of the last of the thresholds, or else `alert`.
abbrev pub last_alert : Option ContestAlert → List Threshold → Option ContestAlert
last_alert alert [] = alert
last_alert alert (t ∷ ts) = last_alert (some (threshold_alert t)) ts

abbrev Apart : List Threshold → Type 0
Apart [] = Unit
Apart (t ∷ ts) = All (λ u. (t.seconds == u.seconds) ≡ false) ts × Apart ts
