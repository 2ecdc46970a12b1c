-- ===== src/TestCases/Bank/Sequence.antt =====
-- The ordinals after a deletion.
use algo_test.Prelude.{
  ℕ, suc, zero, ◌+◌, ◌≤◌, ◌<◌, ◌==◌, ◌≡◌, refl, ap, true, false, none, List, [], ◌∷◌, ◌++◌, map,
  length, ltb, arith, take, drop,
}
use algo_test.TestCases.Bank.{TestCaseMetadata, resequence, confirm_delete_test, deleted}

-- The ordinals are the numbers from `first` on.
abbrev pub AreNumbered : ℕ → List TestCaseMetadata → Type 0
AreNumbered first [] = Unit
AreNumbered first (t ∷ tests) = (t.ordinal ≡ first) × AreNumbered (suc first) tests

-- A test with all that it holds but its number.
abbrev unnumbered : TestCaseMetadata → TestCaseMetadata
unnumbered t = record t { ordinal = 0 }

abbrev pub contents : List TestCaseMetadata → List TestCaseMetadata
contents tests = map unnumbered tests

-- Behind the deleted test all move up.
resequence-behind :
    (ordinal first : ℕ) (tests : List TestCaseMetadata)
    → ordinal ≤ first
    → AreNumbered (suc first) tests
    → AreNumbered first (resequence ordinal tests)
      × (contents (resequence ordinal tests) ≡ contents tests)
unfolding resequence
resequence-behind ordinal first [] le h = (tt, refl)
resequence-behind ordinal first (t ∷ tests) le (e, es) =
    let kept : (t.ordinal == ordinal) ≡ false = ground (arith, e) in
    let behind : ltb ordinal t.ordinal ≡ true = ground (arith, e) in
    let (numbered, same) = resequence-behind ordinal (suc first) tests (omega (arith, le)) es in
    rw (kept, behind) ((omega (arith, e), numbered), ap (λ r. unnumbered t ∷ r) same)

-- Up to the deleted test nothing moves.
resequence-numbered :
    (before ordinal first : ℕ) (tests : List TestCaseMetadata)
    → ordinal ≡ first + before
    → before < length tests
    → AreNumbered first tests
    → AreNumbered first (resequence ordinal tests)
      × (contents (resequence ordinal tests)
          ≡ take before (contents tests) ++ drop (suc before) (contents tests))
unfolding resequence
resequence-numbered before ordinal first [] at inside h = absurd (omega (arith, inside))
resequence-numbered zero ordinal first (t ∷ tests) at inside (e, es) =
    let gone : (t.ordinal == ordinal) ≡ true = ground (arith, e, at) in
    rw gone (resequence-behind ordinal first tests (omega (arith, at)) es)
resequence-numbered (suc before) ordinal first (t ∷ tests) at inside (e, es) =
    let kept : (t.ordinal == ordinal) ≡ false = ground (arith, e, at) in
    let ahead : ltb ordinal t.ordinal ≡ false = ground (arith, e, at) in
    let (numbered, same) =
      resequence-numbered before ordinal (suc first) tests (omega (arith, at))
        (omega (arith, inside)) es in
    rw (kept, ahead) ((e, numbered), ap (λ r. unnumbered t ∷ r) same)

-- If the tests are numbered from 1 on and the backend deletes one of them and sends no list back,
-- then the tests that are left are numbered from 1 on, and they are the tests before and behind the
-- deleted one, in their order, unchanged but for their numbers.
pub confirm_delete_test-numbered :
    (before : ℕ) (tests : List TestCaseMetadata)
    → before < length tests
    → AreNumbered 1 tests
    → AreNumbered 1 (confirm_delete_test (suc before) (deleted none) tests)
      × (contents (confirm_delete_test (suc before) (deleted none) tests)
          ≡ take before (contents tests) ++ drop (suc before) (contents tests))
unfolding confirm_delete_test
confirm_delete_test-numbered before tests inside numbered =
    resequence-numbered before (suc before) 1 tests (omega arith) inside numbered
