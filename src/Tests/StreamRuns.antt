-- ===== src/Tests/StreamRuns.antt =====
-- The stream of two events, cut into three pieces.
use mathlib.Core.List.{flatten}
use algo_test.Prelude.{◌≡◌, refl, List, [], ◌∷◌, codes, Text, arith, trim}
use algo_test.Feed.Stream.{read_pieces, split_chunks, payloads}
use algo_test.Feed.Stream.Pieces.{read_pieces-flatten}
use algo_test.Feed.Stream.Chunk.{StreamEvent, IsPlain}
use algo_test.Feed.Stream.Feeding.{submission_payloads, payloads-read_pieces}

abbrev ping : StreamEvent
ping = record { event_type = codes "ping"; payload = codes "1" }

abbrev progress : StreamEvent
progress = record { event_type = codes "submission"; payload = codes "{}" }

ping-IsPlain : IsPlain ping
unfolding trim
ping-IsPlain = record {
  type_line = ground arith;
  type_trimmed = refl;
  payload_line = ground arith;
  payload_trimmed = refl;
  payload_filled = refl;
}

progress-IsPlain : IsPlain progress
unfolding trim
progress-IsPlain = record {
  type_line = ground arith;
  type_trimmed = refl;
  payload_line = ground arith;
  payload_trimmed = refl;
  payload_filled = refl;
}

-- The first piece ends within the field of the first event, the second between the two line feeds
-- that end it.
abbrev pieces : List Text
pieces = codes "event:pi" ∷ codes "ng\ndata:1\n" ∷ codes "\nevent:submission\ndata:{}\n\n" ∷ []

payloads-read_pieces_example :
    (payloads (read_pieces [] pieces).0 ≡ submission_payloads (ping ∷ progress ∷ []))
    × ((read_pieces [] pieces).1 ≡ [])
payloads-read_pieces_example =
    payloads-read_pieces (ping ∷ progress ∷ []) pieces (ping-IsPlain, (progress-IsPlain, tt))
      (unfold flatten in refl)

read_pieces-flatten_example : read_pieces [] pieces ≡ split_chunks (flatten pieces)
read_pieces-flatten_example = read_pieces-flatten pieces
