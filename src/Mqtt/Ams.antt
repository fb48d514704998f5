-- ===== src/Mqtt/Ams.antt =====
-- `parse_ams_report`, `_parse_vt_tray_entry` and `extract_command_ack` of app/mqtt_client.py. `none`
-- is an exception, which the caller does not catch.
pub mod Payload
pub mod Counts
use bambu_gateway.Prelude.{
  ℕ, ◌+◌, ◌*◌, String, Bool, true, false, ◌||◌, not, Option, none, some, List, [], ◌∷◌, ◌++◌,
  if◌then◌else◌, length, ◌==◌, string_eq,
}
use bambu_gateway.Prelude.Int.{ℤ, pos, negsuc, int_eq, ◌+ℤ◌}
use bambu_gateway.Prelude.Json.{
  Json, null, bool, num, decimal, str, arr, obj, Items, nil, cons, Fields, end, field, elements,
  entries, member, truthy,
}
use bambu_gateway.Prelude.Show.{lower}
use bambu_gateway.Prelude.Dict
use bambu_gateway.Prelude.Dict.{Dict}
use bambu_gateway.Filament.Validation.{int_of}
use bambu_gateway.Mqtt.Report.{Real}
use bambu_gateway.Mqtt.AmsType.{
  AmsType, from_hw_version, supports_drying, has_humidity_sensor, max_drying_temp,
}

abbrev pub Tray : Type 0
Tray = Dict String Json

-- Every key of a payload but "id".
unfoldable pub copy_keys : Dict String Json → Tray → Tray
copy_keys [] entry = entry
copy_keys ((k, v) ∷ rest) entry =
    copy_keys rest (if k == "id" then entry else Dict.insert k v entry)

abbrev or_minus_one : Option ℤ → ℤ
or_minus_one none = negsuc 0
or_minus_one (some n) = n

abbrev int_option : Option Json → Option ℤ
int_option none = none
int_option (some j) = int_of j

-- `entry["remain"] = int(entry.get("remain", -1))`, or -1.
unfoldable pub with_remain : Tray → Tray
with_remain entry =
    Dict.insert "remain" (num (or_minus_one (int_option (Dict.lookup "remain" entry)))) entry

abbrev placed : ℤ → ℤ → ℤ → Tray
placed slot ams_id tray_id =
    ("slot", num slot) ∷ ("ams_id", num ams_id) ∷ ("tray_id", num tray_id) ∷ []

-- Not in the payload, cleared by a null or an empty value, or given.
pub data VtTray : Type 0 where
  absent cleared : VtTray
  given : Tray → VtTray

abbrev vt_tray_of : Option Json → VtTray
vt_tray_of none = absent
vt_tray_of (some (obj (field k j fs))) =
    given (with_remain (copy_keys ((k, j) ∷ entries fs) (placed (pos 254) (negsuc 0) (negsuc 0))))
vt_tray_of (some _) = cleared

unfoldable pub parse_vt_tray_entry : Fields → VtTray
parse_vt_tray_entry fs = vt_tray_of (member "vt_tray" fs)

pub record AmsUnit : Type 0 where
  pub id : ℤ
  pub humidity : ℤ
  pub temperature : Real
  pub tray_count : ℕ
  pub hw_version : String
  pub ams_type : Option AmsType
  pub supports_drying : Bool
  pub max_drying_temp : ℕ
  pub dry_time_remaining : ℤ

-- `active_tray` is none where the payload has no tray number, and `some none` for 255.
pub record AmsReport : Type 0 where
  pub ams_present : Bool
  pub trays : List Tray
  pub units : List AmsUnit
  pub active_tray : Option (Option ℤ)
  pub vt_tray : VtTray

abbrev pub int_or : ℤ → Option Json → ℤ
int_or default none = default
int_or default (some j) = elim (int_of j) [ none ↦ default | some n ↦ n ]

abbrev real_or_zero : Option Real → Real
real_or_zero none = (pos 0, 0)
real_or_zero (some x) = x

abbrev real_option : (Json → Option Real) → Option Json → Option Real
real_option read none = none
real_option read (some j) = read j

abbrev text_or_empty : (Json → String) → Option Json → String
text_or_empty text none = ""
text_or_empty text (some j) = text j

-- The module list goes before the hardware version.
unfoldable pub type_of : Dict ℤ AmsType → ℤ → String → Option AmsType
type_of module_types ams_id hw_version = elim (Dict.lookup ams_id module_types) [
  | some t ↦ some t
  | none ↦ if hw_version == "" then none else some (from_hw_version hw_version)
]

abbrev sensed : Option AmsType → ℤ → ℤ
sensed none humidity = humidity
sensed (some t) humidity = if has_humidity_sensor t then humidity else negsuc 0

abbrev dries : Option AmsType → Bool
dries none = false
dries (some t) = supports_drying t

abbrev drying_temp : Option AmsType → ℕ
drying_temp none = 55
drying_temp (some t) = max_drying_temp t

-- `int(x.get("id", 0))`, whose exception is not caught.
abbrev pub id_of : Option Json → Option ℤ
id_of none = some (pos 0)
id_of (some j) = int_of j

-- `unit.get("tray", [])`, counted and walked: an empty text or dict has no trays, and the
-- characters or keys of another have no `get`.
unfoldable pub trays_of : Option Json → Option (List Json)
trays_of none = some []
trays_of (some (arr js)) = some (elements js)
trays_of (some (str s)) = if s == "" then some [] else none
trays_of (some (obj end)) = some []
trays_of (some _) = none

-- `ams_id * 4 + tray_id`.
unfoldable pub slot_number : ℤ → ℤ → ℤ
slot_number ams_id tray_id = ams_id +ℤ ams_id +ℤ ams_id +ℤ ams_id +ℤ tray_id

unfoldable pub tray_entry : ℤ → ℤ → Dict String Json → Tray
tray_entry ams_id tray_id items =
    with_remain (copy_keys items (placed (slot_number ams_id tray_id) ams_id tray_id))

unfoldable pub read_trays : ℤ → List Json → Option (List Tray)
read_trays ams_id [] = some []
read_trays ams_id (obj fs ∷ js) = elim (id_of (member "id" fs)) [
  | none ↦ none
  | some tray_id ↦ elim (read_trays ams_id js) [
    | none ↦ none
    | some rest ↦ some (tray_entry ams_id tray_id (entries fs) ∷ rest)
  ]
]
read_trays ams_id (_ ∷ js) = none

-- Python's `float` and `str`, and the types of the module list.
pub record Reader : Type 0 where
  pub float_of : Json → Option Real
  pub text_of : Json → String
  pub module_types : Dict ℤ AmsType

unfoldable pub unit_of : Reader → ℤ → ℕ → Fields → AmsUnit
unit_of r ams_id count fs =
    let hw_version = text_or_empty r.text_of (member "hw_ver" fs) in
    let t = type_of r.module_types ams_id hw_version in
    record {
      id = ams_id;
      humidity = sensed t (int_or (negsuc 0) (member "humidity" fs));
      temperature = real_or_zero (real_option r.float_of (member "temp" fs));
      tray_count = count;
      hw_version = hw_version;
      ams_type = t;
      supports_drying = dries t;
      max_drying_temp = drying_temp t;
      dry_time_remaining = int_or (pos 0) (member "dry_time" fs);
    }

abbrev pub add_unit :
    AmsUnit → List Tray → Option (List AmsUnit × List Tray) → Option (List AmsUnit × List Tray)
add_unit u trays none = none
add_unit u trays (some (us, rest)) = some (u ∷ us, trays ++ rest)

-- The units, and the trays of all of them in order.
unfoldable pub read_units : Reader → List Json → Option (List AmsUnit × List Tray)
read_units r [] = some ([], [])
read_units r (obj fs ∷ js) = elim (id_of (member "id" fs)) [
  | none ↦ none
  | some ams_id ↦ elim (trays_of (member "tray" fs)) [
    | none ↦ none
    | some trays ↦ elim (read_trays ams_id trays) [
      | none ↦ none
      | some read ↦ add_unit (unit_of r ams_id (length trays) fs) read (read_units r js)
    ]
  ]
]
read_units r (_ ∷ js) = none

-- 255 is no tray, 254 the external spool.
unfoldable pub active_of : Option Json → Option (Option ℤ)
active_of none = none
active_of (some null) = none
active_of (some j) = elim (int_of j) [
  | none ↦ none
  | some n ↦ some (if n == pos 255 then none else some n)
]

abbrev pub unit_array : Option Json → List Json
unit_array (some (arr js)) = elements js
unit_array _ = []

abbrev pub is_nonempty {ℓ} : {A : Type ℓ} → List A → Bool
is_nonempty [] = false
is_nonempty (_ ∷ _) = true

-- The later one wins if it is present.
abbrev pub over : VtTray → VtTray → VtTray
over first absent = first
over first cleared = cleared
over first (given t) = given t

abbrev pub report_of :
    Bool → Option (Option ℤ) → VtTray → Option (List AmsUnit × List Tray) → Option AmsReport
report_of present active vt none = none
report_of present active vt (some (units, trays)) = some (record {
  ams_present = present;
  trays = trays;
  units = units;
  active_tray = active;
  vt_tray = vt;
})

abbrev pub ams_block : Reader → Option Json → VtTray → Option AmsReport
ams_block r (some (obj ams)) top =
    let array = unit_array (member "ams" ams) in
    report_of (is_nonempty array) (active_of (member "tray_now" ams))
      (over (parse_vt_tray_entry ams) top) (read_units r array)
ams_block r _ top = report_of false none top (some ([], []))

-- The external spool of the payload itself wins over that of the block.
unfoldable pub parse_ams_report : Reader → Fields → Option AmsReport
parse_ams_report r fs = ams_block r (member "ams" fs) (parse_vt_tray_entry fs)

pub record Ack : Type 0 where
  pub command : String
  pub sequence_id : String
  pub result : String
  pub reason : String

abbrev reason_of : (Json → String) → Option Json → String
reason_of text none = ""
reason_of text (some j) = if truthy j then text j else ""

abbrev ack_of : (Json → String) → Fields → Option Json → Option Json → Option Ack
ack_of text fs none result = none
ack_of text fs (some command) none = none
ack_of text fs (some command) (some null) = none
ack_of text fs (some command) (some result) =
    if truthy command
    then some (record {
      command = text command;
      sequence_id = text_or_empty text (member "sequence_id" fs);
      result = lower (text result);
      reason = reason_of text (member "reason" fs);
    })
    else none

unfoldable pub extract_command_ack : (Json → String) → Fields → Option Ack
extract_command_ack text fs = ack_of text fs (member "command" fs) (member "result" fs)
