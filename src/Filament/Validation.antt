-- ===== src/Filament/Validation.antt =====
-- `validate_selected_trays` of app/filament_selection.py. Of the printer's tray data only the slots
-- are kept: the profile ids that the code stores with them are never read.
use bambu_gateway.Prelude.{
  ℕ, zero, suc, ◌/◌, ◌^◌, ◌+◌, ◌%◌, String, true, false, Option, none, some, List, [], ◌∷◌, ◌++◌,
  if◌then◌else◌, is_in, nat_beq, string_eq,
}
use bambu_gateway.Prelude.Int.{ℤ, pos, negsuc, int_eq}
use bambu_gateway.Prelude.Json.{
  Json, null, bool, num, decimal, str, arr, obj, Fields, entries, member, as_int,
}
use bambu_gateway.Prelude.Text.{parse_int}
use bambu_gateway.Prelude.Dict.{Dict}

pub record AmsInfo : Type 0 where
  pub trays : List Fields
  pub vt_tray : Option Fields

-- -n for a magnitude n.
abbrev minus : ℕ → ℤ
minus zero = pos 0
minus (suc n) = negsuc n

-- `int(value)`: towards zero for a float; `none` is a TypeError or ValueError.
unfoldable pub int_of : Json → Option ℤ
int_of (decimal (pos n) k) = some (pos (n / 10 ^ k))
int_of (decimal (negsuc n) k) = some (minus ((n + 1) / 10 ^ k))
int_of (str s) = parse_int s
int_of j = as_int j

-- `raw.get("slot", -1)`.
abbrev slot_of : Option Json → Option ℤ
slot_of none = some (negsuc 0)
slot_of (some j) = int_of j

unfoldable pub tray_slots : List Fields → List ℤ
tray_slots [] = []
tray_slots (raw ∷ rest) = elim (slot_of (member "slot" raw)) [
  | none ↦ tray_slots rest
  | some s ↦ s ∷ tray_slots rest
]

abbrev pub and_external : Option Fields → List Fields → List Fields
and_external none trays = trays
and_external (some vt) trays = trays ++ vt ∷ []

-- A value as a key among integers: a float is the integer that it equals, a list or dict is not
-- hashable, and anything else is no integer.
pub data KeyOf : Type 0 where
  key : ℤ → KeyOf
  other unhashable : KeyOf

unfoldable pub key_of : Json → KeyOf
key_of (num n) = key n
key_of (bool true) = key (pos 1)
key_of (bool false) = key (pos 0)
key_of (decimal (pos n) k) = if nat_beq (n % 10 ^ k) 0 then key (pos (n / 10 ^ k)) else other
key_of (decimal (negsuc n) k) =
    if nat_beq ((n + 1) % 10 ^ k) 0 then key (minus ((n + 1) / 10 ^ k)) else other
key_of (arr js) = unhashable
key_of (obj fs) = unhashable
key_of _ = other

pub data TrayCheck : Type 0 where
  passes : TrayCheck
  unavailable : Json → TrayCheck
  raises : TrayCheck

-- The values of `tray_slot` that are neither missing nor null.
unfoldable pub selections : Dict String Json → List Json
selections [] = []
selections ((slot_str, obj fs) ∷ rest) = elim (member "tray_slot" fs) [
  | none ↦ selections rest
  | some null ↦ selections rest
  | some j ↦ j ∷ selections rest
]
selections (_ ∷ rest) = selections rest

unfoldable pub check_all : List ℤ → List Json → TrayCheck
check_all slots [] = passes
check_all slots (j ∷ js) =
    let rest = check_all slots js in
    elim (key_of j) [
      | key k ↦ if is_in k slots then rest else unavailable j
      | other ↦ unavailable j
      | unhashable ↦ raises
    ]

abbrev pub check_info : Option AmsInfo → List Json → TrayCheck
check_info none js = passes
check_info (some info) js = check_all (tray_slots (and_external info.vt_tray info.trays)) js

-- Without a selection the printer is not asked; `check_all` passes on no selections.
unfoldable pub validate_selected_trays : Json → Option AmsInfo → TrayCheck
validate_selected_trays (obj fs) info = check_info info (selections (entries fs))
validate_selected_trays _ info = passes
