-- ===== src/Proctor/Loopback/Ports.antt =====
-- What the search of the loopback ports finds.
use algo_test.Prelude.{
  ℕ, ◌≡◌, ◌↔◌, refl, Bool, not, Option, none, some, List, [], ◌∷◌, ◌==◌, select, All, arith,
  Bool-cases, inl, inr, ==_iff, subst, sym,
}
use algo_test.Proctor.Loopback.{
  loopback_ports, known, ordered_ports, first_answer, read_local_agent,
}

-- A predicate of one value and of the others in a list.
All-select_iff :
    (P : ℕ → Type 0) (p : ℕ) (xs : List ℕ)
    → P p
    → All P (select (λ port. not (port == p)) xs) ↔ All P xs
All-select_iff P p [] h = (λ k. k, λ k. k)
All-select_iff P p (x ∷ xs) h = elim (Bool-cases (x == p)) [
  | inl same ↦ rw same (
    λ k. (subst P (sym ((==_iff x p).0 same)) h, (All-select_iff P p xs h).0 k),
    λ k. (All-select_iff P p xs h).1 k.1,
  )
  | inr other ↦
      rw other
        (λ k. (k.0, (All-select_iff P p xs h).0 k.1), λ k. (k.0, (All-select_iff P p xs h).1 k.1))
]

module _ {A : Type 0} (probe : ℕ → Option A) where
  abbrev IsSilent : ℕ → Type 0
  IsSilent port = probe port ≡ none

  first_answer-eq-none_iff :
      (ports : List ℕ) → ((first_answer probe ports).0 ≡ none) ↔ All IsSilent ports
  unfolding first_answer
  first_answer-eq-none_iff [] = ground arith
  first_answer-eq-none_iff (port ∷ ports) = ground (arith, first_answer-eq-none_iff ports)

  -- Asking the known port first, or all of them, finds the same.
  read_local_agent-eq-first_answer :
      (preferred : Option ℕ) (exhaustive : Bool)
      → (read_local_agent probe preferred exhaustive).0
        ≡ (first_answer probe (ordered_ports preferred)).0
  unfolding read_local_agent
  read_local_agent-eq-first_answer none exhaustive = refl
  read_local_agent-eq-first_answer (some p) exhaustive = elim (Bool-cases (p == 0)) [
    | inl e ↦ rw (e, read_local_agent)
    | inr e ↦ rw (e, read_local_agent, ordered_ports) (ground arith)
  ]

  ordered_ports-IsSilent_iff :
      (preferred : Option ℕ)
      → All IsSilent (ordered_ports preferred)
        ↔ (All IsSilent loopback_ports × ((p : ℕ) → known preferred ≡ some p → IsSilent p))
  unfolding ordered_ports
  ordered_ports-IsSilent_iff none = (λ h. (h, λ p e'. cc), λ h. h.0)
  ordered_ports-IsSilent_iff (some p) = elim (Bool-cases (p == 0)) [
    | inl e ↦ rw (e, ordered_ports) (λ h. (h, λ p e'. cc), λ h. h.0)
    | inr e ↦
        rw (e, ordered_ports)
          (
            λ h. (
              (All-select_iff IsSilent p loopback_ports h.0).0 h.1,
              λ q e'. let same : p ≡ q = cc in subst IsSilent same h.0,
            ),
            λ h. (h.1 p refl, (All-select_iff IsSilent p loopback_ports (h.1 p refl)).1 h.0),
          )
  ]

  -- No agent is found exactly when no loopback port answers, nor the port that was known.
  pub read_local_agent-eq-none_iff :
      (preferred : Option ℕ) (exhaustive : Bool)
      → ((read_local_agent probe preferred exhaustive).0 ≡ none)
        ↔ (All IsSilent loopback_ports × ((p : ℕ) → known preferred ≡ some p → IsSilent p))
  read_local_agent-eq-none_iff preferred exhaustive =
      rw (read_local_agent-eq-first_answer preferred exhaustive) (
        λ h. (ordered_ports-IsSilent_iff preferred).0 ((first_answer-eq-none_iff _).0 h),
        λ h. (first_answer-eq-none_iff _).1 ((ordered_ports-IsSilent_iff preferred).1 h),
      )
