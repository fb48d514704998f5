-- ===== src/Prelude/Show.antt =====
-- Python's `str` of a number, `upper`, `lower` and `strip`, as texts. Case and white space are the
-- ASCII ones.
use Prim.Native.Nat.{ℕ, zero, suc, ◌-◌, ◌/◌, ◌%◌}
use Prim.Native.Char.{Char, code}
use Prim.Native.String
use Prim.Native.String.{String}
use mathlib.Core.List.{List, [], ◌∷◌}
use bambu_gateway.Prelude.Tests.{ltb, nat_beq, if◌then◌else◌}
use bambu_gateway.Prelude.Int.{ℤ, pos, negsuc}
use bambu_gateway.Prelude.Text.{is_space}

abbrev digit : ℕ → String
digit zero = "0"
digit (suc zero) = "1"
digit (suc (suc zero)) = "2"
digit (suc (suc (suc zero))) = "3"
digit (suc (suc (suc (suc zero)))) = "4"
digit (suc (suc (suc (suc (suc zero))))) = "5"
digit (suc (suc (suc (suc (suc (suc zero)))))) = "6"
digit (suc (suc (suc (suc (suc (suc (suc zero))))))) = "7"
digit (suc (suc (suc (suc (suc (suc (suc (suc zero)))))))) = "8"
digit _ = "9"

-- The digits of `n` in front of a text; a number has fewer digits than the fuel `n + 1`.
unfoldable pub show_digits : ℕ → ℕ → String → String
show_digits zero n acc = acc
show_digits (suc fuel) n acc =
    let here = String.◌++◌ (digit (n % 10)) acc in
    let rest = show_digits fuel (n / 10) here in if ltb n 10 then here else rest

unfoldable pub show_nat : ℕ → String
unfolding show_digits
show_nat n = show_digits (suc n) n ""

unfoldable pub show_int : ℤ → String
unfolding show_nat
show_int (pos n) = show_nat n
show_int (negsuc n) = String.◌++◌ "-" (show_nat (suc n))

infixr 65 ◌<>◌
abbrev pub ◌<>◌ : String → String → String
◌<>◌ = String.◌++◌

-- The first of the letters in front, by the other.
abbrev swap_in : List (Char × Char) → Char → Char
swap_in [] c = c
swap_in ((a, b) ∷ cs) c = if nat_beq (code a) (code c) then b else swap_in cs c

abbrev letters : List (Char × Char)
letters =
    ("a", "A")
    ∷ ("b", "B")
    ∷ ("c", "C")
    ∷ ("d", "D")
    ∷ ("e", "E")
    ∷ ("f", "F")
    ∷ ("g", "G")
    ∷ ("h", "H")
    ∷ ("i", "I")
    ∷ ("j", "J")
    ∷ ("k", "K")
    ∷ ("l", "L")
    ∷ ("m", "M")
    ∷ ("n", "N")
    ∷ ("o", "O")
    ∷ ("p", "P")
    ∷ ("q", "Q")
    ∷ ("r", "R")
    ∷ ("s", "S")
    ∷ ("t", "T")
    ∷ ("u", "U")
    ∷ ("v", "V")
    ∷ ("w", "W")
    ∷ ("x", "X")
    ∷ ("y", "Y")
    ∷ ("z", "Z")
    ∷ []

abbrev flipped : List (Char × Char) → List (Char × Char)
flipped [] = []
flipped ((a, b) ∷ cs) = (b, a) ∷ flipped cs

unfoldable pub upper : String → String
upper String.[] = ""
upper (String.◌∷◌ c s) = String.◌∷◌ (swap_in letters c) (upper s)

unfoldable pub lower : String → String
lower String.[] = ""
lower (String.◌∷◌ c s) = String.◌∷◌ (swap_in (flipped letters) c) (lower s)

unfoldable pub lstrip_text : String → String
lstrip_text String.[] = ""
lstrip_text (String.◌∷◌ c s) =
    let rest = lstrip_text s in if is_space (code c) then rest else String.◌∷◌ c s

unfoldable pub reverse_text : String → String → String
reverse_text String.[] acc = acc
reverse_text (String.◌∷◌ c s) acc = reverse_text s (String.◌∷◌ c acc)

-- `text.strip()`.
unfoldable pub strip_text : String → String
unfolding lstrip_text reverse_text
strip_text s = reverse_text (lstrip_text (reverse_text (lstrip_text s) "")) ""

abbrev hex_digit : ℕ → String
hex_digit n =
    if ltb n 10
    then digit n
    else if nat_beq n 10
    then "A"
    else if nat_beq n 11
    then "B"
    else if nat_beq n 12
    then "C"
    else if nat_beq n 13
    then "D"
    else if nat_beq n 14
    then "E"
    else "F"

-- As `show_digits`, in base 16.
unfoldable pub show_hex_digits : ℕ → ℕ → String → String
show_hex_digits zero n acc = acc
show_hex_digits (suc fuel) n acc =
    let here = String.◌++◌ (hex_digit (n % 16)) acc in
    let rest = show_hex_digits fuel (n / 16) here in if ltb n 16 then here else rest

-- Zeros in front, up to a width.
abbrev zeros : ℕ → String
zeros zero = ""
zeros (suc n) = String.◌++◌ "0" (zeros n)

abbrev padded : ℕ → String → String
padded width s = String.◌++◌ (zeros (width - String.count s)) s

-- `f"{n:08X}"`: the sign counts among the eight characters.
unfoldable pub show_hex8 : ℤ → String
unfolding show_hex_digits
show_hex8 (pos n) = padded 8 (show_hex_digits (suc n) n "")
show_hex8 (negsuc n) = String.◌++◌ "-" (padded 7 (show_hex_digits (suc (suc n)) (suc n) ""))

-- `text.replace("_", "")`.
unfoldable pub without_underscores : String → String
without_underscores String.[] = ""
without_underscores (String.◌∷◌ c s) =
    let rest = without_underscores s in if nat_beq (code c) b'_' then rest else String.◌∷◌ c rest
