-- ===== src/Feed/Stream/Pieces.antt =====
-- Cutting the stream at empty lines does not depend on where the network cut it.
use mathlib.Core.List.{flatten}
use algo_test.Prelude.{
  ℕ, ◌≡◌, refl, ap, ◌∙◌, sym, ◌&&◌, List, [], ◌∷◌, ◌++◌, ◌==◌, inl, inr, Text, Bool-cases,
  append_assoc, append-nil,
}
use algo_test.Feed.Stream.{open_chunk, split_chunks, read_pieces}

-- The chunks in front of those of another cut.
abbrev after : List Text → List Text × Text → List Text × Text
after chunks r = (chunks ++ r.0, r.1)

open_chunk-eq-nil :
    (c : ℕ) (r : List Text × Text)
    → (open_chunk c r).0 ≡ []
    → (r.0 ≡ []) × ((open_chunk c r).1 ≡ c ∷ r.1)
open_chunk-eq-nil c ([], rest) h = (refl, refl)
open_chunk-eq-nil c (x ∷ xs, rest) h = cc

-- A text with no chunk closed is all buffer.
split_chunks-whole : (s : Text) → (split_chunks s).0 ≡ [] → (split_chunks s).1 ≡ s
unfolding split_chunks
split_chunks-whole [] h = refl
split_chunks-whole (c ∷ []) h = refl
split_chunks-whole (c ∷ d ∷ s) h = elim (Bool-cases (c == 10 && d == 10)) [
  | inl e ↦ let h' = rw e at h in cc h'
  | inr e ↦
      let (none_closed, joined) = open_chunk-eq-nil c (split_chunks (d ∷ s)) (rw e at h) in
      rw e (joined ∙ ap (λ r. c ∷ r) (split_chunks-whole (d ∷ s) none_closed))
]

open_chunk-append :
    (c d : ℕ) (s t : Text) (r u : List Text × Text)
    → (r.0 ≡ [] → r.1 ≡ d ∷ s)
    → split_chunks (c ∷ d ∷ (s ++ t)) ≡ open_chunk c u
    → u ≡ after r.0 (split_chunks (r.1 ++ t))
    → open_chunk c u ≡ after (open_chunk c r).0 (split_chunks ((open_chunk c r).1 ++ t))
open_chunk-append c d s t ([], rest) u whole q ih = rw (whole refl) (sym q)
open_chunk-append c d s t (x ∷ xs, rest) u whole q ih = rw ih

-- Text that follows is cut together with the buffer.
split_chunks-append :
    (s t : Text)
    → split_chunks (s ++ t) ≡ after (split_chunks s).0 (split_chunks ((split_chunks s).1 ++ t))
unfolding split_chunks
split_chunks-append [] t = refl
split_chunks-append (c ∷ []) t = refl
split_chunks-append (c ∷ d ∷ s) t = elim (Bool-cases (c == 10 && d == 10)) [
  | inl e ↦ rw e (ap (λ r. after ([] ∷ []) r) (split_chunks-append s t))
  | inr e ↦ rw e (
      open_chunk-append c d s t (split_chunks (d ∷ s)) (split_chunks (d ∷ (s ++ t)))
        (split_chunks-whole (d ∷ s)) (rw e) (split_chunks-append (d ∷ s) t))
]

open_chunk-rest :
    (c d : ℕ) (s : Text) (r : List Text × Text)
    → (r.0 ≡ [] → r.1 ≡ d ∷ s)
    → split_chunks (c ∷ d ∷ s) ≡ open_chunk c r
    → split_chunks r.1 ≡ ([], r.1)
    → split_chunks (open_chunk c r).1 ≡ ([], (open_chunk c r).1)
open_chunk-rest c d s ([], rest) whole q ih =
    rw (whole refl) (q ∙ ap (λ b. ([], c ∷ b)) (whole refl))
open_chunk-rest c d s (x ∷ xs, rest) whole q ih = ih

-- What is left in the buffer holds no closed chunk.
split_chunks-rest : (s : Text) → split_chunks (split_chunks s).1 ≡ ([], (split_chunks s).1)
unfolding split_chunks
split_chunks-rest [] = refl
split_chunks-rest (c ∷ []) = refl
split_chunks-rest (c ∷ d ∷ s) = elim (Bool-cases (c == 10 && d == 10)) [
  | inl e ↦ rw e (split_chunks-rest s)
  | inr e ↦ rw e (
      open_chunk-rest c d s (split_chunks (d ∷ s)) (split_chunks-whole (d ∷ s)) (rw e)
        (split_chunks-rest (d ∷ s)))
]

read_pieces-flatten_of_open :
    (buffer : Text) (pieces : List Text)
    → split_chunks buffer ≡ ([], buffer)
    → read_pieces buffer pieces ≡ split_chunks (buffer ++ flatten pieces)
unfolding read_pieces flatten
read_pieces-flatten_of_open buffer [] h = rw append-nil (sym h)
read_pieces-flatten_of_open buffer (value ∷ values) h =
    let r = split_chunks (buffer ++ value) in
    ap (after r.0) (read_pieces-flatten_of_open r.1 values (split_chunks-rest (buffer ++ value)))
    ∙ sym (split_chunks-append (buffer ++ value) (flatten values))
    ∙ ap split_chunks (append_assoc buffer value (flatten values))

-- However the stream is cut into pieces, the chunks that are handled and the text that stays in the
-- buffer are those of the whole text, cut once.
pub read_pieces-flatten :
    (pieces : List Text) → read_pieces [] pieces ≡ split_chunks (flatten pieces)
unfolding split_chunks
read_pieces-flatten pieces = read_pieces-flatten_of_open [] pieces refl
