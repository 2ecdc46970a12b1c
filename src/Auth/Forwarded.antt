-- ===== src/Auth/Forwarded.antt =====
-- The entry that counts is the one that the nearest proxy appended.
use algo_test.Prelude.{
  ℕ, ◌≡◌, refl, true, false, not, Option, some, List, [], ◌∷◌, ◌++◌, map, select, ◌==◌, Text, trim,
  is_blank, split_at, extend_first, arith, Bool-cases, inl, inr,
}
use algo_test.Prelude.Trim.{Lacks, split_at-line}
use algo_test.Auth.{trimmed, nearest, client_address}

abbrev IsFilled : List Text → Type 0
IsFilled [] = ⊥
IsFilled (part ∷ parts) = Unit

extend_first-IsFilled : (c : ℕ) (parts : List Text) → IsFilled (extend_first c parts)
extend_first-IsFilled c [] = tt
extend_first-IsFilled c (part ∷ parts) = tt

is_blank-middle : (s : Text) (c : ℕ) (t : Text) → is_blank (s ++ c ∷ t) ≡ false
is_blank-middle [] c t = refl
is_blank-middle (d ∷ s) c t = refl

split_at-IsFilled : (sep : ℕ) (s : Text) → IsFilled (split_at sep s)
unfolding split_at
split_at-IsFilled sep [] = tt
split_at-IsFilled sep (c ∷ s) = elim (Bool-cases (c == sep)) [
  | inl e ↦ rw e tt
  | inr e ↦ rw e (extend_first-IsFilled c (split_at sep s))
]

extend_first-append :
    (c : ℕ) (xs ys : List Text) → IsFilled xs → extend_first c (xs ++ ys) ≡ extend_first c xs ++ ys
extend_first-append c [] ys h = elim h [ ]
extend_first-append c (x ∷ xs) ys h = refl

-- A text is split at each separator apart.
split_at-append_all :
    (sep : ℕ) (s t : Text) → split_at sep (s ++ sep ∷ t) ≡ split_at sep s ++ split_at sep t
unfolding split_at
split_at-append_all sep [] t = ground arith
split_at-append_all sep (c ∷ s) t = elim (Bool-cases (c == sep)) [
  | inl e ↦ rw (e, split_at-append_all sep s t)
  | inr e ↦
      rw (e, split_at-append_all sep s t)
        (extend_first-append c (split_at sep s) (split_at sep t) (split_at-IsFilled sep s))
]

nearest-append_last : (hops : List Text) (last : Text) → nearest (hops ++ last ∷ []) ≡ last
unfolding nearest
nearest-append_last [] last = refl
nearest-append_last (hop ∷ []) last = refl
nearest-append_last (hop ∷ next ∷ hops) last = nearest-append_last (next ∷ hops) last

abbrev kept : List Text → List Text
kept parts = select (λ hop. not (is_blank hop)) (map trim parts)

kept-append_last :
    (parts : List Text) (last : Text)
    → is_blank (trim last) ≡ false
    → kept (parts ++ last ∷ []) ≡ kept parts ++ trim last ∷ []
kept-append_last [] last h = rw h
kept-append_last (part ∷ parts) last h = ground (arith, kept-append_last parts last h)

-- Without an X-Real-IP that is not blank, the address is the entry that the nearest proxy appended
-- to X-Forwarded-For, whatever entries the client sent before it.
pub client_address-forwarded :
    (real : Option Text) (sent peer : Text)
    → is_blank (trimmed real) ≡ true
    → Lacks b',' peer
    → is_blank (trim peer) ≡ false
    → client_address real (some (sent ++ b',' ∷ peer)) ≡ trim peer
unfolding client_address
client_address-forwarded real sent peer blank single filled =
    rw
      (
        blank,
        is_blank-middle sent b',' peer,
        split_at-append_all b',' sent peer,
        split_at-line b',' peer single,
        kept-append_last (split_at b',' sent) peer filled,
      )
      (nearest-append_last (kept (split_at b',' sent)) (trim peer))
