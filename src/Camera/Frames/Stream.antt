-- ===== src/Camera/Frames/Stream.antt =====
-- The parser against a description of the printer's stream, and the layout of the auth packet.
use bambu_gateway.Prelude.{
  ℕ, ◌-◌, ◌/◌, ◌%◌, ◌^◌, ◌<◌, ◌≡◌, refl, sym, ap, ◌∙◌, none, some, List, [], ◌∷◌, ◌++◌, map,
  append_assoc, append-nil, arith, length, take, drop, replicate, All, length-append,
  length-replicate, length-take-le, take-length, drop-length,
}
use bambu_gateway.Camera.Frames.{
  FrameParser, new_parser, build_auth_packet, read_length, read_header, read_frame, feed,
}
use bambu_gateway.Camera.Frames.Chunks.{
  Drains, no_header, frame, Drains-unique, feed-Drains, feed-append,
}

-- A frame on the wire: a payload, behind its length in four bytes and twelve unused ones.
pub record Frame : Type 0 where
  pub unused : List ℕ
  pub payload : List ℕ

pub record IsSendable (f : Frame) : Type 0 where
  pub twelve : length f.unused ≡ 12
  pub fits : length f.payload < 2 ^ 32

abbrev pub encode : Frame → List ℕ
encode f =
    let n = length f.payload in
    (n % 256) ∷ (n / 256 % 256) ∷ (n / 65536 % 256) ∷ (n / 16777216 % 256) ∷ (f.unused ++ f.payload)

abbrev pub stream : List Frame → List ℕ
stream [] = []
stream (f ∷ fs) = encode f ++ stream fs

abbrev pub payloads : List Frame → List (List ℕ)
payloads = map (λ (f : Frame). f.payload)

read_length-encode :
    (f : Frame) (rest : List ℕ) → IsSendable f → read_length (encode f ++ rest) ≡ length f.payload
unfolding read_length
read_length-encode f rest h = omega arith

abbrev awaiting : Frame → List ℕ → FrameParser
awaiting f rest = record { buffer = f.payload ++ rest; expected_len = some (length f.payload) }

drop_unused :
    (f : Frame) (rest : List ℕ)
    → IsSendable f
    → drop 12 ((f.unused ++ f.payload) ++ rest) ≡ f.payload ++ rest
drop_unused f rest h = rw (append_assoc, ← h.twelve) (drop-length f.unused (f.payload ++ rest))

read_header-encode :
    (f : Frame) (rest : List ℕ)
    → IsSendable f
    → read_header (record { buffer = encode f ++ rest; expected_len = none })
      ≡ some (awaiting f rest)
unfolding read_header
read_header-encode f rest h = ground (
  arith,
  read_length-encode f rest h,
  drop_unused f rest h,
  length-append f.unused f.payload,
  length-append (f.unused ++ f.payload) rest,
)

read_frame-awaiting :
    (f : Frame) (rest : List ℕ)
    → read_frame (awaiting f rest) ≡ some (f.payload, record { buffer = rest; expected_len = none })
unfolding read_frame
read_frame-awaiting f rest =
    ground
      (arith, length-append f.payload rest, take-length f.payload rest, drop-length f.payload rest)

no_header_left : read_header new_parser ≡ none
unfolding read_header
no_header_left = refl

stream-Drains :
    (fs : List Frame)
    → All IsSendable fs
    → Drains (record { buffer = stream fs; expected_len = none }) (payloads fs) new_parser
stream-Drains [] h = no_header no_header_left
stream-Drains (f ∷ fs) h =
    frame (read_header-encode f (stream fs) h.0) (read_frame-awaiting f (stream fs))
      (stream-Drains fs h.1)

-- The reads of one connection, in turn; the frames come out as they get whole.
pub feed_all : List (List ℕ) → FrameParser → List (List ℕ) × FrameParser
feed_all [] p = ([], p)
feed_all (chunk ∷ chunks) p =
    let (out, q) = feed chunk p in let (rest, r) = feed_all chunks q in (out ++ rest, r)

abbrev pub concat : List (List ℕ) → List ℕ
concat [] = []
concat (xs ∷ xss) = xs ++ concat xss

feed_all-concat :
    (chunk : List ℕ) (chunks : List (List ℕ)) (p : FrameParser)
    → feed_all (chunk ∷ chunks) p ≡ feed (concat (chunk ∷ chunks)) p
unfolding feed_all
feed_all-concat chunk [] p = simp append-nil
feed_all-concat chunk (next ∷ chunks) p =
    let (out, q) = feed chunk p in
    ap (λ (r : List (List ℕ) × FrameParser). (out ++ r.0, r.1)) (feed_all-concat next chunks q)
    ∙ sym (feed-append chunk (concat (next ∷ chunks)) p)

feed-stream :
    (fs : List Frame) → All IsSendable fs → feed (stream fs) new_parser ≡ (payloads fs, new_parser)
feed-stream fs h =
    let same = Drains-unique (feed-Drains (stream fs) new_parser) (stream-Drains fs h) in
    λ i. (same.0 i, same.1 i)

-- A stream of frames, with lengths below 2^32, cut into reads at any places, comes out as exactly
-- the payloads, in order, and leaves nothing in the parser.
pub feed_all-stream :
    (fs : List Frame) (chunks : List (List ℕ))
    → All IsSendable fs
    → concat chunks ≡ stream fs
    → feed_all chunks new_parser ≡ (payloads fs, new_parser)
unfolding feed_all
feed_all-stream [] [] h e = refl
feed_all-stream (f ∷ fs) [] h e = cc
feed_all-stream fs (chunk ∷ chunks) h e =
    feed_all-concat chunk chunks new_parser
    ∙ ap (λ bytes. feed bytes new_parser) e
    ∙ feed-stream fs h

length_pad : (n : ℕ) (xs : List ℕ) → length (take n xs ++ replicate (n - length (take n xs)) 0) ≡ n
length_pad n xs = omega (
  arith,
  length-append (take n xs) (replicate (n - length (take n xs)) 0),
  length-replicate {A = ℕ} (n - length (take n xs)) 0,
  length-take-le n xs,
)

-- The auth packet is 80 bytes for every access code, and carries the code's first 32 bytes from
-- byte 48 on, padded with zeros.
pub build_auth_packet_layout :
    (code : List ℕ)
    → (length (build_auth_packet code) ≡ 80)
      × (drop 48 (build_auth_packet code)
          ≡ take 32 code ++ replicate (32 - length (take 32 code)) 0)
      × (take 20 (build_auth_packet code)
          ≡ 0x40 ∷ 0 ∷ 0 ∷ 0 ∷ 0 ∷ 0x30 ∷ replicate 10 0 ++ b'b' ∷ b'b' ∷ b'l' ∷ b'p' ∷ [])
unfolding build_auth_packet
build_auth_packet_layout code = (omega (arith, length_pad 32 code), refl, refl)
