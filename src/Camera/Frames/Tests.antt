-- ===== src/Camera/Frames/Tests.antt =====
-- Runs of the frame parser, and the theorems at concrete inputs.
use bambu_gateway.Prelude.{
  ℕ, ◌<◌, ◌≡◌, refl, List, [], ◌∷◌, ◌++◌, arith, take, drop, length, replicate, none, some,
}
use bambu_gateway.Camera.Frames.{new_parser, feed, loop, read_header, read_frame, read_length}
use bambu_gateway.Camera.Frames.Chunks.{Drains, append, feed-append, feed-Drains}
use bambu_gateway.Camera.Frames.Stream.{
  Frame, IsSendable, encode, payloads, feed_all, feed_all-stream,
}

abbrev small : Frame
small = record { unused = replicate 12 0; payload = 7 ∷ 8 ∷ 9 ∷ [] }

abbrev blank : Frame
blank = record { unused = replicate 12 1; payload = [] }

feed-small :
    feed (encode small ++ 3 ∷ []) new_parser
    ≡ ((7 ∷ 8 ∷ 9 ∷ []) ∷ [], record { buffer = 3 ∷ []; expected_len = none })
unfolding feed loop read_header read_frame read_length
feed-small = refl

-- The header is taken off the buffer before its payload is there.
feed_half :
    feed (take 18 (encode small)) new_parser
    ≡ ([], record { buffer = 7 ∷ 8 ∷ []; expected_len = some 3 })
unfolding feed loop read_header read_frame read_length
feed_half = refl

feed-Drains_example :
    let fed = feed (encode small) new_parser in
    Drains (append new_parser (encode small)) fed.0 fed.1
feed-Drains_example = feed-Drains (encode small) new_parser

feed-append_example :
    let (out, q) = feed (take 18 (encode small)) new_parser in
    let (rest, r) = feed (9 ∷ 5 ∷ []) q in
    feed (take 18 (encode small) ++ 9 ∷ 5 ∷ []) new_parser ≡ (out ++ rest, r)
feed-append_example = feed-append (take 18 (encode small)) (9 ∷ 5 ∷ []) new_parser

sendable : (f : Frame) → length f.unused ≡ 12 → length f.payload < 100 → IsSendable f
sendable f h k = record { twelve = h; fits = omega arith }

abbrev reads : List (List ℕ)
reads = take 18 (encode small) ∷ (drop 18 (encode small) ++ encode blank) ∷ []

feed_all-stream_example : feed_all reads new_parser ≡ (payloads (small ∷ blank ∷ []), new_parser)
feed_all-stream_example =
    feed_all-stream (small ∷ blank ∷ []) reads
      (sendable small refl (omega arith), (sendable blank refl (omega arith), tt)) refl
