-- ===== src/Feed/Stream/Chunk.antt =====
-- Events as the backend writes them: `event:<type>\ndata:<payload>\n\n`.
use algo_test.Prelude.{
  ℕ, ◌≡◌, refl, ap, ◌∙◌, false, Option, some, none, List, [], ◌∷◌, ◌++◌, if◌then◌else◌, Text, codes,
  trim, is_blank, text_eq, append_assoc, split_at, All-append, arith,
}
use algo_test.Prelude.Trim.{Lacks, is_blank-trim, split_at-line, split_at-append}
use algo_test.Feed.Stream.{open_chunk, split_chunks, chunk_payload}

pub record StreamEvent : Type 0 where
  pub event_type : Text
  pub payload : Text

-- One line each, with no space at their ends, and a payload that is not empty.
pub record IsPlain (e : StreamEvent) : Type 0 where
  pub type_line : Lacks 10 e.event_type
  pub type_trimmed : trim e.event_type ≡ e.event_type
  pub payload_line : Lacks 10 e.payload
  pub payload_trimmed : trim e.payload ≡ e.payload
  pub payload_filled : is_blank e.payload ≡ false

abbrev pub type_field : StreamEvent → Text
type_field e = codes "event:" ++ e.event_type

abbrev pub data_field : StreamEvent → Text
data_field e = codes "data:" ++ e.payload

abbrev pub chunk_of : StreamEvent → Text
chunk_of e = type_field e ++ 10 ∷ data_field e

-- The event with the empty line that ends it.
abbrev pub frame : StreamEvent → Text
frame e = chunk_of e ++ 10 ∷ 10 ∷ []

-- What the reader hands on of an event.
abbrev pub submission_payload : StreamEvent → Option Text
submission_payload e = if text_eq e.event_type (codes "submission") then some e.payload else none

-- A line is cut off whole in front of an empty line.
split_chunks-line :
    (s t : Text)
    → Lacks 10 s
    → split_chunks (s ++ 10 ∷ 10 ∷ t) ≡ (s ∷ (split_chunks t).0, (split_chunks t).1)
unfolding split_chunks
split_chunks-line [] t h = refl
split_chunks-line (c ∷ []) t (h, _) = rw h
split_chunks-line (c ∷ d ∷ s) t (h, k) =
    rw (h) (ap (λ r. open_chunk c r) (split_chunks-line (d ∷ s) t k))

-- A line in front of a line that is not empty goes to the chunk of that line.
split_chunks-line_before :
    (s : Text) (d : ℕ) (t x : Text) (xs : List Text) (rest : Text)
    → Lacks 10 s
    → split_chunks (10 ∷ d ∷ t) ≡ (x ∷ xs, rest)
    → split_chunks (s ++ 10 ∷ d ∷ t) ≡ ((s ++ x) ∷ xs, rest)
unfolding split_chunks
split_chunks-line_before [] d t x xs rest h e = e
split_chunks-line_before (c ∷ []) d t x xs rest (h, _) e = rw (h, e)
split_chunks-line_before (c ∷ b ∷ s) d t x xs rest (h, k) e =
    rw (h, split_chunks-line_before (b ∷ s) d t x xs rest k e)

event_prefix-Lacks : Lacks 10 (codes "event:")
event_prefix-Lacks = ground arith

data_prefix-Lacks : Lacks 10 (codes "data:")
data_prefix-Lacks = ground arith

module _ (e : StreamEvent) (plain : IsPlain e) where
  type_field-Lacks : Lacks 10 (type_field e)
  type_field-Lacks = All-append _ (codes "event:") e.event_type event_prefix-Lacks plain.type_line

  data_field-Lacks : Lacks 10 (data_field e)
  data_field-Lacks = All-append _ (codes "data:") e.payload data_prefix-Lacks plain.payload_line

  split_chunks-data_field :
      (t : Text)
      → split_chunks (10 ∷ (data_field e ++ 10 ∷ 10 ∷ t))
        ≡ ((10 ∷ data_field e) ∷ (split_chunks t).0, (split_chunks t).1)
  unfolding split_chunks
  split_chunks-data_field t =
      ap (λ r. open_chunk 10 r) (split_chunks-line (data_field e) t data_field-Lacks)

  -- An event that is written is cut off as one chunk.
  pub split_chunks-frame :
      (t : Text)
      → split_chunks (frame e ++ t) ≡ (chunk_of e ∷ (split_chunks t).0, (split_chunks t).1)
  split_chunks-frame t =
      rw (append_assoc, append_assoc)
        (split_chunks-line_before (type_field e) 100 _ (10 ∷ data_field e) _ _ type_field-Lacks
          (split_chunks-data_field t))

  split_at-chunk_of : split_at 10 (chunk_of e) ≡ type_field e ∷ data_field e ∷ []
  split_at-chunk_of =
      split_at-append 10 (type_field e) (data_field e) type_field-Lacks
      ∙ ap (λ r. type_field e ∷ r) (split_at-line 10 (data_field e) data_field-Lacks)

  -- The reader takes the payload of a `submission` event, as it was written, and nothing of others.
  pub chunk_payload-chunk_of : chunk_payload (chunk_of e) ≡ submission_payload e
  unfolding chunk_payload
  chunk_payload-chunk_of =
      rw
        (
          split_at-chunk_of,
          is_blank-trim 101 _ refl,
          plain.type_trimmed,
          plain.payload_trimmed,
          plain.payload_filled,
        )
        (ground arith)
