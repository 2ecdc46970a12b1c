-- ===== src/Feed/Actions/Spread.antt =====
-- Reading an object that is spread over another.
use algo_test.Prelude.{
  ◌≡◌, refl, ◌∙◌, String, not, none, [], ◌∷◌, ◌++◌, if◌then◌else◌, or_else, str_eq_iff, Map, get,
  has, select, arith,
}
use algo_test.Feed.Actions.{override, spread}

module _ {ℓ} {V : Type ℓ} where
  get-append : (j : String) (m n : Map V) → get j (m ++ n) ≡ or_else (get j m) (get j n)
  unfolding get
  get-append j [] n = refl
  get-append j ((k, v) ∷ m) n = ground (arith, get-append j m n)

  get-override :
      (j : String) (current m : Map V)
      → get j (override current m) ≡ (if has j m then or_else (get j current) (get j m) else none)
  unfolding override get
  get-override j current [] = refl
  get-override j current ((k, v) ∷ m) = ground (arith, str_eq_iff k j, get-override j current m)

  get-select :
      (j : String) (m current : Map V)
      → get j (select (λ entry. not (has entry.0 m)) current)
        ≡ (if has j m then none else get j current)
  unfolding get
  get-select j m [] = ground arith
  get-select j m ((k, v) ∷ current) = ground (arith, str_eq_iff k j, get-select j m current)

  -- The spread object has the value of `current`, or else that of `m`.
  pub get-spread :
      (j : String) (m current : Map V)
      → get j (spread m current) ≡ or_else (get j current) (get j m)
  unfolding spread
  get-spread j m current =
      get-append j (override current m) (select (λ entry. not (has entry.0 m)) current)
      ∙ rw (get-override j current m, get-select j m current) (ground arith)
