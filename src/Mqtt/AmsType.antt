-- ===== src/Mqtt/AmsType.antt =====
-- `AMSType` of app/models.py, and `parse_ams_module_types` of app/mqtt_client.py.
use Prim.Native.String
use text.Mathlib.Text.{starts_with}
use bambu_gateway.Prelude.{
  ℕ, String, Bool, not, Option, none, some, List, [], ◌∷◌, if◌then◌else◌, Eq, discrete_eq, is_in,
}
use bambu_gateway.Prelude.Int.{ℤ, int_eq}
use bambu_gateway.Prelude.Json.{Json, str, arr, obj, Fields, elements, member, truthy}
use bambu_gateway.Prelude.Text.{parse_int}
use bambu_gateway.Prelude.Dict
use bambu_gateway.Prelude.Dict.{Dict}

pub data AmsType : Type 0 where
  standard lite pro ht : AmsType

abbrev pub AmsType-discrete : Discrete AmsType
AmsType-discrete = hlevel

instance abbrev pub ams_type_eq : Eq AmsType
ams_type_eq = discrete_eq AmsType-discrete

unfoldable pub from_hw_version : String → AmsType
from_hw_version hw_version =
    if starts_with hw_version "AMS_F1"
    then lite
    else if starts_with hw_version "N3F"
    then pro
    else if starts_with hw_version "N3S"
    then ht
    else standard

unfoldable pub supports_drying : AmsType → Bool
supports_drying t = not (is_in t (standard ∷ lite ∷ []))

unfoldable pub has_humidity_sensor : AmsType → Bool
has_humidity_sensor t = not (is_in t (lite ∷ []))

unfoldable pub max_drying_temp : AmsType → ℕ
max_drying_temp standard = 55
max_drying_temp lite = 55
max_drying_temp pro = 65
max_drying_temp ht = 85

abbrev pub module_prefixes : List (String × AmsType)
module_prefixes = ("ams/", standard) ∷ ("ams_f1/", lite) ∷ ("n3f/", pro) ∷ ("n3s/", ht) ∷ []

abbrev add_type : AmsType → Option ℤ → Dict ℤ AmsType → Dict ℤ AmsType
add_type t none out = out
add_type t (some id) out = Dict.insert id t out

-- What stands behind the prefix, as an integer.
abbrev pub id_behind : String → String → Option ℤ
id_behind prefix name = parse_int (String.slice name (String.len prefix) (String.len name))

-- One prefix after another; a number that cannot be read is passed over.
unfoldable pub read_name : List (String × AmsType) → String → Dict ℤ AmsType → Dict ℤ AmsType
read_name [] name out = out
read_name ((prefix, t) ∷ rest) name out =
    read_name rest name
      (if starts_with name prefix then add_type t (id_behind prefix name) out else out)

-- `none` is the AttributeError of a name that is no text.
abbrev read_module : Option Json → Dict ℤ AmsType → Option (Dict ℤ AmsType)
read_module none out = some (read_name module_prefixes "" out)
read_module (some (str name)) out = some (read_name module_prefixes name out)
read_module (some _) out = none

unfoldable pub read_modules : List Json → Dict ℤ AmsType → Option (Dict ℤ AmsType)
read_modules [] out = some out
read_modules (obj fs ∷ mods) out = elim (read_module (member "name" fs) out) [
  | none ↦ none
  | some out' ↦ read_modules mods out'
]
read_modules (_ ∷ mods) out = read_modules mods out

-- The items of a value after `or []`: the keys of a dict and the characters of a text are no
-- dicts, so that they are passed over. `none` is the TypeError of a number or `True`.
abbrev modules_of : Option Json → Option (List Json)
modules_of none = some []
modules_of (some (arr js)) = some (elements js)
modules_of (some (obj fs)) = some []
modules_of (some (str s)) = some []
modules_of (some j) = if truthy j then none else some []

unfoldable pub parse_ams_module_types : Fields → Option (Dict ℤ AmsType)
parse_ams_module_types info = elim (modules_of (member "module" info)) [
  | none ↦ none
  | some mods ↦ read_modules mods []
]
