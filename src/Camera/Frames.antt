-- ===== src/Camera/Frames.antt =====
-- `build_auth_packet` and `FrameParser` of app/camera_proxy.py. A byte is a number below 256.
pub mod Chunks
pub mod Stream
mod Tests
use bambu_gateway.Prelude.{
  ℕ, zero, suc, ◌+◌, ◌-◌, ◌*◌, ◌<◌, Option, none, some, List, [], ◌∷◌, ◌++◌, ltb, if◌then◌else◌,
  length, take, drop, replicate,
}

-- `code` is the access code in UTF-8; 0x40, 0x30 and "bblp" stand at 0, 5 and 16.
unfoldable pub build_auth_packet : List ℕ → List ℕ
build_auth_packet code =
    let code_bytes = take 32 code in
    0x40 ∷ 0 ∷ 0 ∷ 0 ∷ 0 ∷ 0x30 ∷ replicate 10 0
    ++ (b'b' ∷ b'b' ∷ b'l' ∷ b'p' ∷ replicate 28 0)
    ++ (code_bytes ++ replicate (32 - length code_bytes) 0)

abbrev pub header_size : ℕ
header_size = 16

pub record FrameParser : Type 0 where
  pub buffer : List ℕ
  pub expected_len : Option ℕ

abbrev pub new_parser : FrameParser
new_parser = record { buffer = []; expected_len = none }

-- The four bytes are joined by `|` after shifts by 8, 16 and 24: for bytes, their sum.
unfoldable pub read_length : List ℕ → ℕ
read_length (b0 ∷ b1 ∷ b2 ∷ b3 ∷ _) = b0 + b1 * 256 + b2 * 65536 + b3 * 16777216
read_length _ = 0

-- The first half of the loop's body; `none` is its `break`.
unfoldable pub read_header : FrameParser → Option FrameParser
read_header p = elim p.expected_len [
  | some n ↦ some p
  | none ↦
      if ltb (length p.buffer) header_size
      then none
      else some (record {
        buffer = drop header_size p.buffer;
        expected_len = some (read_length p.buffer);
      })
]

-- The second half: a whole frame and what is left, or its `break`.
unfoldable pub read_frame : FrameParser → Option (List ℕ × FrameParser)
read_frame p = elim p.expected_len [
  | none ↦ none
  | some n ↦
      if ltb (length p.buffer) n
      then none
      else some (take n p.buffer, record { buffer = drop n p.buffer; expected_len = none })
]

-- The `while True` on fuel. Each round that goes on has taken a header off the buffer, but the
-- first may have had it from before, so two more rounds than bytes are enough.
unfoldable pub loop : ℕ → FrameParser → List (List ℕ) × FrameParser
loop zero p = ([], p)
loop (suc fuel) p = elim (read_header p) [
  | none ↦ ([], p)
  | some q ↦ elim (read_frame q) [
    | none ↦ ([], q)
    | some (jpeg, r) ↦ let (out, s) = loop fuel r in (jpeg ∷ out, s)
  ]
]

unfoldable pub feed : List ℕ → FrameParser → List (List ℕ) × FrameParser
feed bytes p = let q = record p { buffer = p.buffer ++ bytes } in loop (length q.buffer + 2) q
