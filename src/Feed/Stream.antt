-- ===== src/Feed/Stream.antt =====
-- The reader of the event stream, `streamLoop` of
-- competitor-frontend/src/components/portal/submissions-provider.tsx: pieces of text are added to
-- a buffer, which is cut at empty lines into chunks; a chunk gives an event type and its payload.
pub mod Pieces
pub mod Chunk
pub mod Feeding
use algo_test.Prelude.{
  ℕ, Bool, true, false, ◌&&◌, not, Option, some, none, List, [], ◌∷◌, ◌++◌, ◌==◌, if◌then◌else◌,
  Text, codes, trim, starts_with, drop, is_blank, split_at, text_eq,
}

abbrev open_chunk : ℕ → List Text × Text → List Text × Text
open_chunk b ([], rest) = ([], b ∷ rest)
open_chunk b (chunk ∷ chunks, rest) = ((b ∷ chunk) ∷ chunks, rest)

-- `buffer.split("\n\n")`, with its last part apart, which `chunks.pop()` takes for the new buffer.
unfoldable pub split_chunks : Text → List Text × Text
split_chunks [] = ([], [])
split_chunks (c ∷ []) = ([], c ∷ [])
split_chunks (c ∷ d ∷ s) =
    let closed = split_chunks s in
    let longer = split_chunks (d ∷ s) in
    if c == 10 && d == 10 then ([] ∷ closed.0, closed.1) else open_chunk c longer

-- The loop over `reader.read()`: the chunks that are handled, and the buffer that is left.
unfoldable pub read_pieces : Text → List Text → List Text × Text
unfolding split_chunks
read_pieces buffer [] = ([], buffer)
read_pieces buffer (value ∷ values) =
    let (chunks, rest) = split_chunks (buffer ++ value) in
    let (more, left) = read_pieces rest values in (chunks ++ more, left)

-- `eventType` and `dataStr`
pub record ChunkState : Type 0 where
  pub event_type : Text
  pub data_str : Text

-- One round of the loop over the lines of a chunk.
unfoldable pub read_line : ChunkState → Text → ChunkState
unfolding trim
read_line state line =
    if starts_with line (codes "event:")
    then record state { event_type = trim (drop 6 line) }
    else if starts_with line (codes "data:")
    then record state {
      data_str =
          state.data_str
          ++ ((if is_blank state.data_str then [] else codes "\n") ++ trim (drop 5 line));
    }
    else state

unfoldable pub read_lines : ChunkState → List Text → ChunkState
unfolding read_line
read_lines state [] = state
read_lines state (line ∷ lines) = read_lines (read_line state line) lines

-- What a chunk hands on to `JSON.parse`: the payload of a `submission` event.
unfoldable pub chunk_payload : Text → Option Text
unfolding trim read_lines split_at
chunk_payload chunk =
    let state =
      read_lines (record { event_type = codes "message"; data_str = [] }) (split_at 10 chunk) in
    if is_blank (trim chunk)
    then none
    else if text_eq state.event_type (codes "submission") && not (is_blank state.data_str)
    then some state.data_str
    else none

abbrev pub prepend_some : Option Text → List Text → List Text
prepend_some none texts = texts
prepend_some (some text) texts = text ∷ texts

-- The payloads of a run of chunks, in order.
unfoldable pub payloads : List Text → List Text
unfolding chunk_payload
payloads [] = []
payloads (chunk ∷ chunks) = prepend_some (chunk_payload chunk) (payloads chunks)
