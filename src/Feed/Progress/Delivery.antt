-- ===== src/Feed/Progress/Delivery.antt =====
-- A run of updates of one submission, in whatever order they come.
use algo_test.Prelude.{
  ℕ, ◌≤◌, ◌≡◌, ◌⊎◌, String, truthy, true, false, Option, some, none, List, [], ◌∷◌, inl, inr, arith,
  if◌then◌else◌, All, Any,
}
use algo_test.Feed.Types.{SubmissionStatusResponse}
use algo_test.Feed.Progress.{terminal, should_apply_submission_progress}
use algo_test.Feed.Progress.Order.{IsDated, ends_before, should_apply_dated_iff}

module _ (date_parse : String → Option ℕ) where
  -- What is shown after one more update.
  unfoldable pub receive :
      Option SubmissionStatusResponse → SubmissionStatusResponse → Option SubmissionStatusResponse
  receive shown next =
      if should_apply_submission_progress date_parse shown next then some next else shown

  unfoldable pub deliver :
      Option SubmissionStatusResponse
      → List SubmissionStatusResponse
      → Option SubmissionStatusResponse
  deliver shown [] = shown
  deliver shown (next ∷ more) = deliver (receive shown next) more

  -- The update does not give the start of its attempt, and no finish or one before `start`.
  pub record IsUndatedBefore (start : ℕ) (r : SubmissionStatusResponse) : Type 0 where
    pub undated : truthy r.attempt_started_at ≡ false
    pub ends : (truthy r.finished_at ≡ false) ⊎ (ends_before date_parse start r ≡ true)

  -- The update is of no attempt that started after `start`.
  abbrev pub IsUpTo : ℕ → SubmissionStatusResponse → Type 0
  IsUpTo start r = IsUndatedBefore start r ⊎ ((a : ℕ) × IsDated date_parse a r × (a ≤ start))

  -- The update is of the attempt that started at `start`, and finished.
  abbrev pub IsDone : ℕ → SubmissionStatusResponse → Type 0
  IsDone start r = IsDated date_parse start r × (terminal r ≡ true)

  -- The update says that the attempt that started at `start` is finished, and gives no finish
  -- before its start.
  abbrev pub IsFinal : ℕ → SubmissionStatusResponse → Type 0
  IsFinal start r = IsDone start r × (ends_before date_parse start r ≡ false)

  abbrev IsShownUpTo : ℕ → Option SubmissionStatusResponse → Type 0
  IsShownUpTo start none = Unit
  IsShownUpTo start (some r) = IsUpTo start r

  abbrev pub IsSettled : ℕ → Option SubmissionStatusResponse → Type 0
  IsSettled start none = ⊥
  IsSettled start (some r) = IsDone start r

  receive-IsShownUpTo :
      (start : ℕ) (shown : Option SubmissionStatusResponse) (next : SubmissionStatusResponse)
      → IsShownUpTo start shown
      → IsUpTo start next
      → IsShownUpTo start (receive shown next)
  unfolding receive should_apply_submission_progress
  receive-IsShownUpTo start none next h k = k
  receive-IsShownUpTo start (some r) next h k =
      elim (should_apply_submission_progress date_parse (some r) next)
        as (λ b. IsShownUpTo start (if b then some next else some r)) [ true ↦ k | false ↦ h ]

  receive-IsSettled :
      (start : ℕ) (shown : Option SubmissionStatusResponse) (next : SubmissionStatusResponse)
      → IsSettled start shown
      → IsUpTo start next
      → IsSettled start (receive shown next)
  unfolding receive should_apply_submission_progress
  receive-IsSettled start none next h k = elim h [ ]
  receive-IsSettled start (some r) next (d, t) (inl u) = ground arith
  receive-IsSettled start (some r) next (d, t) (inr (a, d', le)) =
      ground (arith, should_apply_dated_iff date_parse r next start a d d')

  receive_final :
      (start : ℕ) (shown : Option SubmissionStatusResponse) (next : SubmissionStatusResponse)
      → IsShownUpTo start shown
      → IsFinal start next
      → IsSettled start (receive shown next)
  unfolding receive should_apply_submission_progress
  receive_final start none next h ((d, t), e) = (d, t)
  receive_final start (some r) next (inl u) ((d, t), e) = ground arith
  receive_final start (some r) next (inr (a, d, le)) ((d', t), e) =
      ground (arith, should_apply_dated_iff date_parse r next a start d d')

  deliver-IsSettled :
      (start : ℕ) (shown : Option SubmissionStatusResponse) (more : List SubmissionStatusResponse)
      → IsSettled start shown
      → All (IsUpTo start) more
      → IsSettled start (deliver shown more)
  unfolding deliver
  deliver-IsSettled start shown [] h k = h
  deliver-IsSettled start shown (next ∷ more) h (k, ks) =
      deliver-IsSettled start (receive shown next) more (receive-IsSettled start shown next h k) ks

  deliver_final :
      (start : ℕ) (shown : Option SubmissionStatusResponse) (more : List SubmissionStatusResponse)
      → IsShownUpTo start shown
      → All (IsUpTo start) more
      → Any (IsFinal start) more
      → IsSettled start (deliver shown more)
  unfolding deliver
  deliver_final start shown [] h k f = absurd f
  deliver_final start shown (next ∷ more) h (k, ks) (inl f) =
      deliver-IsSettled start (receive shown next) more (receive_final start shown next h f) ks
  deliver_final start shown (next ∷ more) h (k, ks) (inr f) =
      deliver_final start (receive shown next) more (receive-IsShownUpTo start shown next h k) ks f

  -- However the updates of a submission are ordered, repeated or delayed, a finished update of the
  -- attempt that started at `start` is shown in the end, if one of them is finished, of that attempt
  -- and without a finish before `start`, and if each of them either carries a start of its attempt
  -- that can be read and is not after `start`, or carries none, and no finish or one that can be read
  -- and is before `start`.
  pub deliver_converges :
      (start : ℕ) (updates : List SubmissionStatusResponse)
      → All (IsUpTo start) updates
      → Any (IsFinal start) updates
      → IsSettled start (deliver none updates)
  deliver_converges start updates k f = deliver_final start none updates tt k f
