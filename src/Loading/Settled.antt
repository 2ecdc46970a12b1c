-- ===== src/Loading/Settled.antt =====
-- When the page is busy, and which answers it shows.
use algo_test.Prelude.{
  ℕ, suc, ◌≤◌, ◌==◌, ==_iff, ◌≡◌, refl, ap, sym, ◌∙◌, Bool, true, false, ◌&&◌, ◌||◌, not, Option,
  List, [], ◌∷◌, Bool-cases, inl, inr, Text, arith,
}
use algo_test.Loading.{
  AsyncData, Outcome, loaded, rejected, begin_run, end_run, Page, is_pending, without, Step, begins,
  ends, leaves, opened, Reach, here, next,
}

is_pending-without :
    (j id : ℕ) (pending : List ℕ)
    → is_pending j (without id pending) ≡ (is_pending j pending && not (j == id))
is_pending-without j id [] = refl
is_pending-without j id (n ∷ pending) = ground (arith, is_pending-without j id pending)

module _ {ℓ} {A : Type ℓ} (fallback : Option Text) where
  -- The page shows that it is loading or refreshing exactly while its latest request is pending.
  abbrev IsBusyRight : Page A → Type 0
  IsBusyRight p =
      p.shown.mounted ≡ true
      → (p.shown.loading || p.shown.refreshing) ≡ is_pending p.shown.request_id p.pending

  ended :
      (j id : ℕ) (p : Page A)
      → (p.shown.mounted && id == j) ≡ true
      → is_pending j (without id p.pending) ≡ false
  ended j id p latest = is_pending-without j id p.pending ∙ ground arith

  untouched :
      (p : Page A) (id : ℕ)
      → p.shown.mounted ≡ true
      → (p.shown.mounted && id == p.shown.request_id) ≡ false
      → is_pending p.shown.request_id (without id p.pending)
        ≡ is_pending p.shown.request_id p.pending
  untouched p id mounted older =
      is_pending-without p.shown.request_id id p.pending ∙ ground (arith, mounted, older)

  begin_run-IsBusyRight :
      (p : Page A) (is_refresh : Bool)
      → IsBusyRight (record {
        shown = begin_run is_refresh p.shown;
        pending = suc p.shown.request_id ∷ p.pending;
      })
  unfolding begin_run
  begin_run-IsBusyRight p true mounted = ground arith
  begin_run-IsBusyRight p false mounted = ground arith

  end_run-IsBusyRight :
      (p : Page A) (id : ℕ) (outcome : Outcome A)
      → IsBusyRight p
      → IsBusyRight
          (record { shown = end_run fallback id outcome p.shown; pending = without id p.pending })
  unfolding end_run
  end_run-IsBusyRight p id (loaded result) busy =
      elim (Bool-cases (p.shown.mounted && id == p.shown.request_id)) [
        | inl latest ↦ rw latest (λ mounted. sym (ended p.shown.request_id id p latest))
        | inr older ↦ rw older (λ mounted. busy mounted ∙ sym (untouched p id mounted older))
      ]
  end_run-IsBusyRight p id (rejected thrown) busy =
      elim (Bool-cases (p.shown.mounted && id == p.shown.request_id)) [
        | inl latest ↦ rw latest (λ mounted. sym (ended p.shown.request_id id p latest))
        | inr older ↦ rw older (λ mounted. busy mounted ∙ sym (untouched p id mounted older))
      ]

  Step-IsBusyRight : {p q : Page A} → Step fallback p q → IsBusyRight p → IsBusyRight q
  Step-IsBusyRight (begins p is_refresh) busy = begin_run-IsBusyRight p is_refresh
  Step-IsBusyRight (ends p id outcome pending) busy = end_run-IsBusyRight p id outcome busy
  Step-IsBusyRight (leaves p) busy = λ mounted. absurd (cc mounted)

  opened-IsBusyRight :
      (initial_data : A) {q : Page A}
      → Reach fallback (opened fallback initial_data) q
      → IsBusyRight q
  unfolding begin_run
  opened-IsBusyRight initial_data here = λ mounted. refl
  opened-IsBusyRight initial_data (next reached step) =
      Step-IsBusyRight step (opened-IsBusyRight initial_data reached)

  -- Whatever requests begin and end, and in whatever order: as long as the page is mounted, it shows
  -- that it is loading or refreshing exactly while its latest request is pending.
  pub Reach-busy :
      (initial_data : A) {q : Page A}
      → Reach fallback (opened fallback initial_data) q
      → q.shown.mounted ≡ true
      → (q.shown.loading || q.shown.refreshing) ≡ is_pending q.shown.request_id q.pending
  Reach-busy initial_data reached mounted = opened-IsBusyRight initial_data reached mounted

  -- The page shows the same as before, apart from whether it is mounted.
  abbrev pub ShowsSame : AsyncData A → AsyncData A → Type ℓ
  ShowsSame s t =
      (t.data_shown ≡ s.data_shown)
      × (t.error ≡ s.error)
      × (t.loading ≡ s.loading)
      × (t.refreshing ≡ s.refreshing)

  -- The latest request of `p` has ended, and none has begun since.
  abbrev IsLate : Page A → Page A → Type ℓ
  IsLate p q =
      (p.shown.request_id ≤ q.shown.request_id)
      × (q.shown.request_id ≡ p.shown.request_id
          → is_pending p.shown.request_id p.pending ≡ false
          → ShowsSame p.shown q.shown × (is_pending q.shown.request_id q.pending ≡ false))

  end_run-request_id :
      (id : ℕ) (outcome : Outcome A) (s : AsyncData A)
      → (end_run fallback id outcome s).request_id ≡ s.request_id
  unfolding end_run
  end_run-request_id id (loaded result) s = elim (Bool-cases (s.mounted && id == s.request_id)) [
    | inl latest ↦ rw latest refl
    | inr older ↦ rw older refl
  ]
  end_run-request_id id (rejected thrown) s = elim (Bool-cases (s.mounted && id == s.request_id)) [
    | inl latest ↦ rw latest refl
    | inr older ↦ rw older refl
  ]

  -- A request that is not the latest changes nothing.
  end_run-older :
      (id : ℕ) (outcome : Outcome A) (s : AsyncData A)
      → (id == s.request_id) ≡ false
      → end_run fallback id outcome s ≡ s
  unfolding end_run
  end_run-older id outcome s older = elim (Bool-cases s.mounted) [
    | inl mounted ↦ rw (mounted, older) refl
    | inr left ↦ rw left refl
  ]

  Step-IsLate : (p : Page A) {q r : Page A} → Step fallback q r → IsLate p q → IsLate p r
  unfolding begin_run end_run
  Step-IsLate p (begins q true) (le, late) =
      (omega (arith, le), λ same. absurd (omega (arith, le, same)))
  Step-IsLate p (begins q false) (le, late) =
      (omega (arith, le), λ same. absurd (omega (arith, le, same)))
  Step-IsLate p (ends q id outcome pending) (le, late) =
      let kept = end_run-request_id id outcome q.shown in
      (
        omega (arith, kept, le),
        λ same quiet.
            let (shows, settled) = late (sym kept ∙ same) quiet in
            let older : (id == q.shown.request_id) ≡ false =
              elim (Bool-cases (id == q.shown.request_id)) [
                | inr other ↦ other
                | inl this ↦ absurd (
                    cc (
                      ap (λ n. is_pending n q.pending) ((==_iff id q.shown.request_id).0 this),
                      pending,
                      settled,
                    ))
              ] in
            rw (end_run-older id outcome q.shown older)
              (shows, is_pending-without q.shown.request_id id q.pending ∙ ground (arith, settled)),
      )
  Step-IsLate p (leaves q) (le, late) = (le, late)

  Reach-IsLate : (p : Page A) {q : Page A} → Reach fallback p q → IsLate p q
  Reach-IsLate p here = (omega arith, λ same quiet. ((refl, refl, refl, refl), quiet))
  Reach-IsLate p (next reached step) = Step-IsLate p step (Reach-IsLate p reached)

  -- Once the latest request has ended and until the next one begins, the page shows the same,
  -- whatever older requests end with and even if it is left.
  pub Reach-ShowsSame :
      (p : Page A) {q : Page A}
      → Reach fallback p q
      → q.shown.request_id ≡ p.shown.request_id
      → is_pending p.shown.request_id p.pending ≡ false
      → ShowsSame p.shown q.shown
  Reach-ShowsSame p reached same quiet = ((Reach-IsLate p reached).1 same quiet).0
