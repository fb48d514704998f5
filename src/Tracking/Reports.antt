-- ===== src/Tracking/Reports.antt =====
-- The readers of a report in app/print_tracking.py. `str` of a float, a list or a dict is an
-- argument, as everywhere a report is read.
pub mod Merged
use Prim.Native.Char.{Char, code}
use bambu_gateway.Prelude.{
  ℕ, zero, suc, ◌-◌, String, Bool, true, false, not, ◌&&◌, ◌||◌, Option, none, some, List, [], ◌∷◌,
  if◌then◌else◌, nat_beq, ◌==◌, string_eq, is_in,
}
use bambu_gateway.Prelude.Int.{ℤ, pos, negsuc}
use bambu_gateway.Prelude.Json.{
  Json, null, bool, num, decimal, str, arr, obj, Items, nil, cons, Fields, end, field, member,
  truthy,
}
use bambu_gateway.Prelude.Show.{lower, strip_text, show_int, reverse_text, ◌<>◌}
use bambu_gateway.Filament.Validation.{int_of}

-- `target[key] = value`.
unfoldable pub put : String → Json → Fields → Fields
put key value end = field key value end
put key value (field k j fs) = if k == key then field k value fs else field k j (put key value fs)

-- A dict is merged into a dict, and anything else takes the place of what is there.
unfoldable pub merge : Fields → Fields → Fields
merge target end = target
merge target (field key (obj update) rest) =
    merge
      (put key
        (obj (elim (member key target) [ some (obj inner) ↦ merge inner update | _ ↦ update ]))
        target)
      rest
merge target (field key value rest) = merge (put key value target) rest

unfoldable pub integer : ℤ → Option Json → ℤ
integer default none = default
integer default (some j) = elim (int_of j) [ none ↦ default | some n ↦ n ]

-- `str(value)`.
unfoldable pub text_of : (Json → String) → Json → String
text_of other null = "None"
text_of other (bool b) = if b then "True" else "False"
text_of other (num n) = show_int n
text_of other (str s) = s
text_of other j = other j

-- `report.get(key)` is `none` for a missing key, and a null has no text either.
unfoldable pub text : (Json → String) → Option Json → String
text other none = ""
text other (some null) = ""
text other (some j) = strip_text (text_of other j)

-- `a or b`.
abbrev pub either_of : Option Json → Option Json → Option Json
either_of none b = b
either_of (some j) b = if truthy j then some j else b

abbrev starts : String → String → Bool
starts String.[] s = true
starts (String.◌∷◌ c p) s = elim s [
  | String.[] ↦ false
  | String.◌∷◌ d rest ↦ nat_beq (code c) (code d) && starts p rest
]

abbrev pub starts_with : String → String → Bool
starts_with s prefix = starts prefix s

abbrev reversed : String → String
reversed s = reverse_text s ""

abbrev pub ends_with : String → String → Bool
ends_with s suffix = starts (reversed suffix) (reversed s)

abbrev dropped : String → String → String
dropped String.[] s = s
dropped (String.◌∷◌ _ p) s = elim s [ String.[] ↦ "" | String.◌∷◌ _ rest ↦ dropped p rest ]

-- `text[:-len(suffix)]`.
abbrev without_end : String → String → String
without_end suffix s = reversed (dropped suffix (reversed s))

unfoldable pub name_identity : String → String
name_identity value =
    let lowered = lower (strip_text value) in
    if ends_with lowered ".3mf"
    then without_end ".3mf" lowered
    else if ends_with lowered ".gcode"
    then without_end ".gcode" lowered
    else lowered

unfoldable pub contains : String → String → Bool
contains part String.[] = part == ""
contains part (String.◌∷◌ c s) = let rest = contains part s in starts part (String.◌∷◌ c s) || rest

-- `Path(path).name`: the last part that is neither empty nor a dot. `here` is the part that is
-- being read, backwards.
abbrev named : String → String → String
named here last = if is_in here ("" ∷ "." ∷ []) then last else reversed here

unfoldable pub last_part : String → String → String → String
last_part String.[] here last = named here last
last_part (String.◌∷◌ c s) here last =
    if nat_beq (code c) b'/'
    then last_part s "" (named here last)
    else last_part s (String.◌∷◌ c here) last

abbrev pub path_name : String → String
path_name s = last_part s "" ""

-- The printer's own path for the name of a 3MF file.
unfoldable pub file_url : String → String
file_url file =
    if not (ends_with (lower file) ".3mf")
    then ""
    else if contains "://" file
    then file
    else if starts_with file "/sdcard/"
    then "file://" <> file
    else if starts_with file "/cache/"
    then "file:///sdcard" <> file
    else if path_name file == ""
    then ""
    else "file:///sdcard/cache/" <> path_name file

unfoldable pub first_text : (Json → String) → List String → Fields → String
first_text other [] fs = ""
first_text other (key ∷ keys) fs =
    let rest = first_text other keys fs in
    let value = text other (member key fs) in if value == "" then rest else value

unfoldable pub reported_url : (Json → String) → Fields → String
reported_url other fs =
    let given = first_text other ("url" ∷ "project_file" ∷ "file_url" ∷ []) fs in
    if given == "" then file_url (text other (member "gcode_file" fs)) else given

abbrev pub or_none : ℤ → Option ℤ
or_none (pos n) = some (pos n)
or_none (negsuc n) = none

abbrev tray_in : Option Json → Option ℤ → Option ℤ
tray_in none previous = previous
tray_in (some j) previous = or_none (integer (negsuc 0) (some j))

abbrev tray_of_block : Option Json → Option Json → Option ℤ → Option ℤ
tray_of_block (some j) active previous = or_none (integer (negsuc 0) (some j))
tray_of_block none active previous = tray_in active previous

unfoldable pub active_tray : Fields → Option ℤ → Option ℤ
active_tray fs previous = elim (member "ams" fs) [
  | some (obj ams) ↦ tray_of_block (member "tray_now" ams) (member "active_tray" fs) previous
  | _ ↦ tray_in (member "active_tray" fs) previous
]
