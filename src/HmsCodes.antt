-- ===== src/HmsCodes.antt =====
-- app/hms_codes.py. The data file is the JSON value that `json.load` returns.
pub mod Laws
mod Tests
use bambu_gateway.Prelude.{
  String, Bool, true, false, ◌&&◌, not, Option, none, some, List, [], ◌∷◌, map, if◌then◌else◌,
  is_in, ◌==◌, string_eq,
}
use bambu_gateway.Prelude.Int.{ℤ, pos, int_eq}
use bambu_gateway.Prelude.Json.{Json, obj, Fields, end, field, entries, member}
use bambu_gateway.Prelude.Text.{parse_hex}
use bambu_gateway.Prelude.Show.{upper, without_underscores, show_hex8, ◌<>◌}
use bambu_gateway.Prelude.Dict
use bambu_gateway.Prelude.Dict.{Dict}
use bambu_gateway.Printer.{HmsCode}

pub record Descriptions : Type 0 where
  pub hms_codes : Dict String String
  pub print_errors : Dict ℤ String

-- The first key of a dict that is not empty.
abbrev first_description : Json → Option String
first_description (obj (field k v rest)) = some k
first_description _ = none

unfoldable pub load_hms : Dict String Json → Dict String String → Dict String String
load_hms [] table = table
load_hms ((key, value) ∷ rest) table =
    load_hms rest
      (elim (first_description value) [ none ↦ table | some d ↦ Dict.insert (upper key) d table ])

-- `none` is the ValueError of a key that is no hexadecimal number.
unfoldable pub load_errors : Dict String Json → Dict ℤ String → Option (Dict ℤ String)
load_errors [] table = some table
load_errors ((key, value) ∷ rest) table = elim (first_description value) [
  | none ↦ load_errors rest table
  | some d ↦ elim (parse_hex key) [
    | none ↦ none
    | some n ↦ load_errors rest (Dict.insert n d table)
  ]
]

-- `data.get(key, {}).items()`; `none` is the AttributeError of a value that is no dict.
abbrev items_of : Option Json → Option (Dict String Json)
items_of none = some []
items_of (some (obj fs)) = some (entries fs)
items_of (some _) = none

unfoldable pub load_descriptions : Fields → Option Descriptions
load_descriptions fs = elim (items_of (member "device_hms" fs)) [
  | none ↦ none
  | some hms ↦ elim (items_of (member "device_error" fs)) [
    | none ↦ none
    | some errors ↦ elim (load_errors errors []) [
      | none ↦ none
      | some table ↦ some (record { hms_codes = load_hms hms []; print_errors = table })
    ]
  ]
]

unfoldable pub describe_hms_code : Descriptions → String → Option String
describe_hms_code t attr = Dict.lookup (upper (without_underscores attr)) t.hms_codes

unfoldable pub describe_print_error : Descriptions → ℤ → Option String
describe_print_error t code = Dict.lookup code t.print_errors

-- `description` if it is a text that is not empty, or else the label.
abbrev or_label : Option String → String → String
or_label none label = label
or_label (some d) label = if d == "" then label else d

abbrev unknown : String → String
unknown code = "unknown error (code " <> code <> ")"

unfoldable pub hms_text : Descriptions → HmsCode → String
hms_text t c = or_label (describe_hms_code t c.attr) (unknown c.attr)

unfoldable pub print_error_text : Descriptions → ℤ → String
print_error_text t n = or_label (describe_print_error t n) (unknown ("0x" <> show_hex8 n))

unfoldable pub current_error_description : Descriptions → List HmsCode → ℤ → Option String
current_error_description t [] print_error =
    if print_error == pos 0 then none else some (print_error_text t print_error)
current_error_description t (c ∷ cs) print_error = some (hms_text t c)

-- The first code whose `attr` is not among those before.
unfoldable pub first_new : List String → List HmsCode → Option HmsCode
first_new prev [] = none
first_new prev (c ∷ cs) = let rest = first_new prev cs in if is_in c.attr prev then rest else some c

abbrev attrs : List HmsCode → List String
attrs [] = []
attrs (c ∷ cs) = c.attr ∷ attrs cs

unfoldable pub pause_reason : Descriptions → List HmsCode → List HmsCode → ℤ → ℤ → Option String
pause_reason t prev_hms new_hms prev_print_error new_print_error =
    elim (first_new (attrs prev_hms) new_hms) [
      | some c ↦ some (hms_text t c)
      | none ↦
          if not (new_print_error == pos 0) && not (new_print_error == prev_print_error)
          then some (print_error_text t new_print_error)
          else none
    ]
