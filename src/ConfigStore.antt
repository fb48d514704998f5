-- ===== src/ConfigStore.antt =====
-- app/config_store.py, and `PrinterConfig` and `Settings.get_printers` of app/config.py. The file
-- is the JSON value that it holds; json.dumps and json.loads are inverse to each other.
pub mod Durable
mod Tests
use Prim.Native.Char.{code}
use bambu_gateway.Prelude.{
  ℕ, String, Bool, true, false, Option, none, some, List, [], ◌∷◌, ◌&&◌, if◌then◌else◌, length,
  nat_beq, ◌==◌, string_eq,
}
use bambu_gateway.Prelude.Json.{
  Json, null, bool, num, decimal, str, arr, obj, Items, nil, cons, Fields, end, field, elements,
  member,
}
use bambu_gateway.Prelude.Show.{strip_text, reverse_text}

pub record PrinterConfig : Type 0 where
  pub ip : String
  pub access_code : String
  pub serial : String
  pub name : String
  pub machine_model : String
  pub default_plate_type : String

-- A key that is left out where the text is empty.
unfoldable pub unless_blank : String → String → Fields → Fields
unless_blank key value rest = if value == "" then rest else field key (str value) rest

unfoldable pub serialize_one : PrinterConfig → Json
serialize_one c = obj (
    field "serial" (str c.serial) (
      field "ip" (str c.ip) (
        field "access_code" (str c.access_code) (
          field "name" (str c.name) (
            unless_blank "machine_model" c.machine_model
              (unless_blank "default_plate_type" c.default_plate_type end))))))

unfoldable pub serialize : List PrinterConfig → Items
serialize [] = nil
serialize (c ∷ cs) = cons (serialize_one c) (serialize cs)

-- A text, the exception of a missing key, or a value of another type, which the code stores.
pub data Read {ℓ} (A : Type ℓ) : Type ℓ where
  found : A → Read A
  raised ill_typed : Read A

infixl 5 ◌>>=◌
abbrev pub ◌>>=◌ {ℓ κ} : {A : Type ℓ} {B : Type κ} → Read A → (A → Read B) → Read B
found a >>= f = f a
raised >>= f = raised
ill_typed >>= f = ill_typed

abbrev pub required : Option Json → Read String
required none = raised
required (some (str s)) = found s
required (some _) = ill_typed

abbrev pub optional : Option Json → Read String
optional none = found ""
optional (some (str s)) = found s
optional (some _) = ill_typed

unfoldable pub deserialize_one : Fields → Read PrinterConfig
deserialize_one fs = do
  serial ← required (member "serial" fs)
  ip ← required (member "ip" fs)
  access_code ← required (member "access_code" fs)
  name ← optional (member "name" fs)
  machine_model ← optional (member "machine_model" fs)
  default_plate_type ← optional (member "default_plate_type" fs)
  found (record {
    ip = ip;
    access_code = access_code;
    serial = serial;
    name = name;
    machine_model = machine_model;
    default_plate_type = default_plate_type;
  })

unfoldable pub deserialize : List Json → Read (List PrinterConfig)
deserialize [] = found []
deserialize (obj fs ∷ js) = do c ← deserialize_one fs; cs ← deserialize js; found (c ∷ cs)
deserialize (_ ∷ js) = raised

-- The file is not there, is no JSON, or holds a value.
pub data ConfigFile : Type 0 where
  missing broken : ConfigFile
  holding : Json → ConfigFile

unfoldable pub save : List PrinterConfig → ConfigFile → ConfigFile
save cs file = holding (arr (serialize cs))

-- A dict or a text is walked by its keys or characters, which have no items.
abbrev read_items : Json → Read (List PrinterConfig)
read_items (arr js) = deserialize (elements js)
read_items (obj end) = found []
read_items (str s) = if s == "" then found [] else raised
read_items _ = raised

-- The configurations of the environment are given, or the error of a mismatch.
unfoldable pub load :
    Option (List PrinterConfig) → ConfigFile → Read (List PrinterConfig) × ConfigFile
load env (holding j) = (read_items j, holding j)
load env broken = (raised, broken)
load none missing = (raised, missing)
load (some []) missing = (found [], missing)
load (some (c ∷ cs)) missing = (found (c ∷ cs), save (c ∷ cs) missing)

-- `text.split(",")` with the parts stripped and the empty ones left out; `here` is the part that is
-- being read, backwards.
abbrev add_part : String → List String → List String
add_part here rest =
    let part = strip_text (reverse_text here "") in if part == "" then rest else part ∷ rest

unfoldable pub split_parts : String → String → List String
split_parts String.[] here = add_part here []
split_parts (String.◌∷◌ c s) here =
    let ended = split_parts s "" in
    let longer = split_parts s (String.◌∷◌ c here) in
    if nat_beq (code c) b',' then add_part here ended else longer

abbrev from_environment : String → String → String → PrinterConfig
from_environment ip access_code serial = record {
  ip = ip;
  access_code = access_code;
  serial = serial;
  name = "";
  machine_model = "";
  default_plate_type = "";
}

unfoldable pub zip_printers : List String → List String → List String → List PrinterConfig
zip_printers (ip ∷ ips) (code ∷ codes) (serial ∷ serials) =
    from_environment ip code serial ∷ zip_printers ips codes serials
zip_printers _ _ _ = []

abbrev checked_zip : List String → List String → List String → Option (List PrinterConfig)
checked_zip [] codes serials = some []
checked_zip (ip ∷ ips) codes serials =
    if nat_beq (length codes) (length (ip ∷ ips)) && nat_beq (length serials) (length (ip ∷ ips))
    then some (zip_printers (ip ∷ ips) codes serials)
    else none

-- `none` is the ValueError of lists of different lengths.
unfoldable pub get_printers : String → String → String → Option (List PrinterConfig)
get_printers ips codes serials =
    checked_zip (split_parts ips "") (split_parts codes "") (split_parts serials "")
