-- ===== src/Prelude/Text.antt =====
-- Python's text functions, on the characters of a string. White space and digits are the ASCII
-- ones.
use Prim.Native.Nat.{ℕ, zero, suc, ◌+◌, ◌-◌, ◌*◌}
use Prim.Native.Char.{code}
use Prim.Native.String.{String}
use mathlib.Core.Bool.{Bool, true, false, ◌&&◌, ◌||◌}
use mathlib.Core.Option.{Option, none, some}
use mathlib.Core.List.{List, [], ◌∷◌, reverse}
use bambu_gateway.Prelude.Tests.{leb, nat_beq, if◌then◌else◌}
use bambu_gateway.Prelude.Int.{ℤ, pos, negsuc}

abbrev pub codes : String → List ℕ
codes String.[] = []
codes (String.◌∷◌ c s) = code c ∷ codes s

-- Tab to carriage return, the four separators, and the space.
abbrev pub is_space : ℕ → Bool
is_space c = (leb 9 c && leb c 13) || (leb 28 c && leb c 32)

unfoldable pub lstrip : List ℕ → List ℕ
lstrip [] = []
lstrip (c ∷ cs) = let rest = lstrip cs in if is_space c then rest else c ∷ cs

unfoldable pub strip : List ℕ → List ℕ
unfolding lstrip
strip cs = reverse (lstrip (reverse (lstrip cs)))

-- `not text.strip()`.
unfoldable pub is_blank : String → Bool
unfolding strip
is_blank s = elim (lstrip (codes s)) [ [] ↦ true | _ ∷ _ ↦ false ]

abbrev pub is_digit : ℕ → Bool
is_digit c = leb b'0' c && leb c b'9'

-- The digits behind a digit; single underscores may stand between two.
unfoldable pub digits_after : ℕ → List ℕ → Option ℕ
digits_after n [] = some n
digits_after n (c ∷ []) = if is_digit c then some (n * 10 + (c - b'0')) else none
digits_after n (c ∷ d ∷ cs) =
    let plain = digits_after (n * 10 + (c - b'0')) (d ∷ cs) in
    let spaced = digits_after (n * 10 + (d - b'0')) cs in
    if is_digit c then plain else if nat_beq c b'_' && is_digit d then spaced else none

unfoldable pub unsigned : List ℕ → Option ℕ
unfolding digits_after
unsigned [] = none
unsigned (c ∷ cs) = if is_digit c then digits_after (c - b'0') cs else none

abbrev negate : ℕ → ℤ
negate zero = pos 0
negate (suc n) = negsuc n

abbrev signed : (ℕ → ℤ) → Option ℕ → Option ℤ
signed sign none = none
signed sign (some n) = some (sign n)

abbrev number : List ℕ → Option ℤ
number [] = none
number (c ∷ cs) =
    if nat_beq c b'-'
    then signed negate (unsigned cs)
    else if nat_beq c b'+'
    then signed pos (unsigned cs)
    else signed pos (unsigned (c ∷ cs))

-- `int(text)`; `none` is its ValueError.
unfoldable pub parse_int : String → Option ℤ
unfolding strip unsigned
parse_int s = number (strip (codes s))

-- The value of a hexadecimal digit.
abbrev hex_value : ℕ → Option ℕ
hex_value c =
    if is_digit c
    then some (c - b'0')
    else if leb b'a' c && leb c b'f'
    then some (c - b'a' + 10)
    else if leb b'A' c && leb c b'F'
    then some (c - b'A' + 10)
    else none

-- The hexadecimal digits behind `n`; `spaced` tells that an underscore may come.
unfoldable pub hex_after : ℕ → Bool → List ℕ → Option ℕ
hex_after n spaced [] = if spaced then some n else none
hex_after n spaced (c ∷ cs) =
    let lone = hex_after n false cs in
    elim (hex_value c) [
      | some d ↦ hex_after (n * 16 + d) true cs
      | none ↦ if spaced && nat_beq c b'_' then lone else none
    ]

abbrev prefixed : List ℕ → Option ℕ
prefixed [] = none
prefixed (c ∷ cs) = if nat_beq c b'_' then hex_after 0 false cs else hex_after 0 false (c ∷ cs)

-- After the sign: "0x" may stand in front, with an underscore behind it.
abbrev unsigned_hex : List ℕ → Option ℕ
unsigned_hex [] = none
unsigned_hex (c ∷ []) = hex_after 0 false (c ∷ [])
unsigned_hex (c ∷ x ∷ cs) =
    if nat_beq c b'0' && (nat_beq x b'x' || nat_beq x b'X')
    then prefixed cs
    else hex_after 0 false (c ∷ x ∷ cs)

abbrev hex_number : List ℕ → Option ℤ
hex_number [] = none
hex_number (c ∷ cs) =
    if nat_beq c b'-'
    then signed negate (unsigned_hex cs)
    else if nat_beq c b'+'
    then signed pos (unsigned_hex cs)
    else signed pos (unsigned_hex (c ∷ cs))

-- `int(text, 16)`; `none` is its ValueError.
unfoldable pub parse_hex : String → Option ℤ
unfolding strip hex_after
parse_hex s = hex_number (strip (codes s))
