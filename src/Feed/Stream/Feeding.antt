-- ===== src/Feed/Stream/Feeding.antt =====
-- From the events that the backend writes to the payloads that the provider parses.
use mathlib.Core.List.{flatten}
use algo_test.Prelude.{◌≡◌, refl, List, [], ◌∷◌, Text, map, All}
use algo_test.Feed.Stream.{split_chunks, read_pieces, prepend_some, payloads}
use algo_test.Feed.Stream.Pieces.{read_pieces-flatten}
use algo_test.Feed.Stream.Chunk.{
  StreamEvent, IsPlain, chunk_of, frame, submission_payload, split_chunks-frame,
  chunk_payload-chunk_of,
}

-- The payloads of the `submission` events among `events`, in order.
abbrev pub submission_payloads : List StreamEvent → List Text
submission_payloads [] = []
submission_payloads (e ∷ events) = prepend_some (submission_payload e) (submission_payloads events)

split_chunks-frames :
    (events : List StreamEvent)
    → All IsPlain events
    → split_chunks (flatten (map frame events)) ≡ (map chunk_of events, [])
unfolding flatten
split_chunks-frames [] h = unfold split_chunks in refl
split_chunks-frames (e ∷ events) (h, hs) =
    rw (split_chunks-frame e h (flatten (map frame events)), split_chunks-frames events hs)

payloads-chunks :
    (events : List StreamEvent)
    → All IsPlain events
    → payloads (map chunk_of events) ≡ submission_payloads events
unfolding payloads
payloads-chunks [] h = refl
payloads-chunks (e ∷ events) (h, hs) = rw (chunk_payload-chunk_of e h, payloads-chunks events hs)

-- However the network cuts the events that the backend writes, the reader hands on exactly the
-- payloads of the `submission` events, in order, and its buffer is empty in the end.
pub payloads-read_pieces :
    (events : List StreamEvent) (pieces : List Text)
    → All IsPlain events
    → flatten pieces ≡ flatten (map frame events)
    → (payloads (read_pieces [] pieces).0 ≡ submission_payloads events)
      × ((read_pieces [] pieces).1 ≡ [])
payloads-read_pieces events pieces h same =
    rw (read_pieces-flatten pieces, same, split_chunks-frames events h)
      (payloads-chunks events h, refl)
