-- ===== src/Camera/Frames/Chunks.antt =====
-- How the bytes are cut into chunks does not matter.
use mathlib.Core.Path.{subst}
use bambu_gateway.Prelude.{
  ℕ, zero, suc, ◌+◌, ◌≤◌, ◌<◌, ◌≡◌, refl, Option, none, some, List, [], ◌∷◌, ◌++◌, append_assoc,
  arith, length, length-append, take-append, drop-append, length-drop, Option-cases, inl, inr,
}
use bambu_gateway.Camera.Frames.{
  FrameParser, header_size, read_length, read_header, read_frame, loop, feed,
}

abbrev pub append : FrameParser → List ℕ → FrameParser
append p b = record p { buffer = p.buffer ++ b }

-- The frames that a buffer holds, and what is left when the loop breaks.
pub data Drains : FrameParser → List (List ℕ) → FrameParser → Type 0 where
  no_header : {p : FrameParser} → read_header p ≡ none → Drains p [] p
  no_frame : {p q : FrameParser} → read_header p ≡ some q → read_frame q ≡ none → Drains p [] q
  frame :
      {p q r s : FrameParser} {jpeg : List ℕ} {out : List (List ℕ)}
      → read_header p ≡ some q
      → read_frame q ≡ some (jpeg, r)
      → Drains r out s
      → Drains p (jpeg ∷ out) s

pub Drains-unique :
    {p s t : FrameParser} {out rest : List (List ℕ)}
    → Drains p out s
    → Drains p rest t
    → (out ≡ rest) × (s ≡ t)
Drains-unique (no_header h) (no_header k) = (refl, refl)
Drains-unique (no_header h) (no_frame k l) = cc
Drains-unique (no_header h) (frame k l m) = cc
Drains-unique (no_frame h i) (no_header k) = cc
Drains-unique (no_frame h i) (no_frame k l) = (refl, cc)
Drains-unique (no_frame h i) (frame k l m) = cc
Drains-unique (frame h i j) (no_header k) = cc
Drains-unique (frame h i j) (no_frame k l) = cc
Drains-unique {t = t} (frame {r = r} {jpeg = x} h i j)
      (frame {r = r'} {jpeg = x'} {out = rest} k l m) =
    let same : r' ≡ r = cc in
    let (outs, ends) = Drains-unique j (subst (λ y. Drains y rest t) same m) in (cc, ends)

abbrev awaits : Option ℕ → ℕ
awaits none = 0
awaits (some n) = 1

abbrev weight : FrameParser → ℕ
weight p = length p.buffer + awaits p.expected_len

step-weight :
    (p q r : FrameParser) (jpeg : List ℕ)
    → read_header p ≡ some q
    → read_frame q ≡ some (jpeg, r)
    → weight r < weight p
unfolding read_header read_frame
step-weight p q r jpeg h k = grind (arith, length-drop)

module _ (f : ℕ) (p : FrameParser) where
  loop_no_header : read_header p ≡ none → loop (suc f) p ≡ ([], p)
  unfolding loop
  loop_no_header h = ground arith

  loop_no_frame :
      (q : FrameParser) → read_header p ≡ some q → read_frame q ≡ none → loop (suc f) p ≡ ([], q)
  unfolding loop
  loop_no_frame q h k = ground arith

  loop_frame :
      (q r : FrameParser) (jpeg : List ℕ)
      → read_header p ≡ some q
      → read_frame q ≡ some (jpeg, r)
      → loop (suc f) p ≡ (jpeg ∷ (loop f r).0, (loop f r).1)
  unfolding loop
  loop_frame q r jpeg h k = ground arith

loop-Drains : (f : ℕ) (p : FrameParser) → weight p < f → Drains p (loop f p).0 (loop f p).1
loop-Drains zero p h = absurd (omega arith)
loop-Drains (suc f) p h = elim (Option-cases (read_header p)) [
  | inl e ↦ rw (loop_no_header f p e) (no_header e)
  | inr (q, e) ↦ elim (Option-cases (read_frame q)) [
    | inl k ↦ rw (loop_no_frame f p q e k) (no_frame e k)
    | inr ((jpeg, r), k) ↦
        rw (loop_frame f p q r jpeg e k)
          (frame e k (loop-Drains f r (omega (arith, step-weight p q r jpeg e k))))
  ]
]

-- The loop of `feed` ends by one of its breaks, whatever is in the buffer: its fuel is enough.
pub feed-Drains :
    (bytes : List ℕ) (p : FrameParser) → Drains (append p bytes) (feed bytes p).0 (feed bytes p).1
unfolding feed
feed-Drains bytes p = loop-Drains _ (append p bytes) (ground arith)

read_length-append :
    (xs ys : List ℕ) → header_size ≤ length xs → read_length (xs ++ ys) ≡ read_length xs
unfolding read_length
read_length-append (a ∷ b ∷ c ∷ d ∷ xs) ys h = refl
read_length-append _ ys h = absurd (omega arith)

module _ (p q : FrameParser) (b : List ℕ) (h : read_header p ≡ some q) where
  -- A header that is there stays there as bytes arrive.
  read_header-append : read_header (append p b) ≡ some (append q b)
  unfolding read_header
  read_header-append = ground (
    arith,
    length-append p.buffer b,
    read_length-append p.buffer b,
    drop-append header_size p.buffer b,
  )

  -- A header is read once.
  read_header_idem : read_header q ≡ some q
  unfolding read_header
  read_header_idem = ground arith

read_frame-append :
    (q r : FrameParser) (b jpeg : List ℕ)
    → read_frame q ≡ some (jpeg, r)
    → read_frame (append q b) ≡ some (jpeg, append r b)
unfolding read_frame
read_frame-append q r b jpeg h = grind (arith, length-append, take-append, drop-append)

module _ (b : List ℕ) where
  Drains-resume :
      (p q : FrameParser) {t s : FrameParser} {out : List (List ℕ)}
      → read_header p ≡ some q
      → t ≡ append q b
      → Drains t out s
      → Drains (append p b) out s
  Drains-resume p q h e (no_header k) =
      let again = read_header-append q q b (read_header_idem p q b h) in cc
  Drains-resume p q h e (no_frame k l) =
      let again = read_header-append q q b (read_header_idem p q b h) in
      let first = read_header-append p q b h in no_frame (cc) l
  Drains-resume p q h e (frame k l r) =
      let again = read_header-append q q b (read_header_idem p q b h) in
      let first = read_header-append p q b h in frame (cc) l r

  Drains-append :
      {p s t : FrameParser} {out rest : List (List ℕ)}
      → Drains p out s
      → Drains (append s b) rest t
      → Drains (append p b) (out ++ rest) t
  Drains-append (no_header h) d = d
  Drains-append (no_frame {p = p} {q = q} h k) d = Drains-resume p q h refl d
  Drains-append (frame {p = p} {q = q} {r = r} {jpeg = jpeg} h k d) d' =
      frame (read_header-append p q b h) (read_frame-append q r b jpeg k) (Drains-append d d')

-- Feeding the bytes of two chunks at once, or one chunk after the other, gives the same frames in
-- the same order, and leaves the parser in the same state.
pub feed-append :
    (a b : List ℕ) (p : FrameParser)
    → let (out, q) = feed a p in let (rest, r) = feed b q in feed (a ++ b) p ≡ (out ++ rest, r)
feed-append a b p =
    let (out, q) = feed a p in
    let whole : Drains (append p (a ++ b)) (feed (a ++ b) p).0 (feed (a ++ b) p).1 =
      feed-Drains (a ++ b) p in
    let parts : Drains (append (append p a) b) (out ++ (feed b q).0) (feed b q).1 =
      Drains-append b (feed-Drains a p) (feed-Drains b q) in
    let same = Drains-unique whole (rw (append_assoc) at parts) in λ i. (same.0 i, same.1 i)
