-- ===== src/Filament.antt =====
-- app/filament_selection.py. The text of the payload is parsed by the caller: `parsed` is the value
-- that `json.loads` returns, or `none` where it raises. Messages are constructors.
pub mod Mapping
pub mod Validation
pub mod Trays
mod Tests
use bambu_gateway.Prelude.{
  ℕ, zero, suc, ◌+◌, String, Bool, true, false, ◌&&◌, ◌||◌, Option, none, some, List, [], ◌∷◌, map,
  if◌then◌else◌, ltb, leb, length, replicate, string_eq,
}
use bambu_gateway.Prelude.Int.{ℤ, pos, negsuc, int_eq, int_ltb, int_leb}
use bambu_gateway.Prelude.Json.{
  Json, null, bool, num, decimal, str, arr, obj, Items, Fields, elements, entries, member, as_int,
}
use bambu_gateway.Prelude.Text.{is_blank, parse_int}
use bambu_gateway.Prelude.Dict
use bambu_gateway.Prelude.Dict.{Dict}

pub data Problem : Type 0 where
  invalid_json list_values not_a_selection : Problem
  invalid_index : String → Problem
  out_of_range : ℤ → ℕ → Problem
  missing_profile bad_selection tray_not_integer : ℤ → Problem
  no_tray_data : Problem
  tray_unavailable : ℤ → Problem

pub data Checked : Type 0 where
  accepted : Json → Checked
  refused : Problem → Checked

abbrev strings : List String → Items
strings [] = Items.nil
strings (s ∷ ss) = Items.cons (str s) (strings ss)

abbrev all_strings : List Json → Bool
all_strings [] = true
all_strings (str s ∷ js) = all_strings js
all_strings (_ ∷ js) = false

-- `str(profile).strip()` is empty for a blank text alone; an absent key counts as "".
unfoldable pub no_profile : Option Json → Bool
no_profile none = true
no_profile (some (str s)) = is_blank s
no_profile (some _) = false

-- The checks of `tray_slot`; `none` is a pass.
unfoldable pub check_tray : Option (Dict ℤ String) → ℤ → Option Json → Option Problem
check_tray trays idx none = none
check_tray trays idx (some null) = none
check_tray trays idx (some j) = elim (as_int j) [
  | none ↦ some (tray_not_integer idx)
  | some slot ↦ elim trays [
    | none ↦ some no_tray_data
    | some m ↦ elim (Dict.lookup slot m) [ none ↦ some (tray_unavailable slot) | some _ ↦ none ]
  ]
]

unfoldable pub check_selection : Option (Dict ℤ String) → ℤ → Json → Option Problem
check_selection trays idx (str s) = if is_blank s then some (missing_profile idx) else none
check_selection trays idx (obj fs) =
    if no_profile (member "profile_setting_id" fs)
    then some (missing_profile idx)
    else check_tray trays idx (member "tray_slot" fs)
check_selection trays idx _ = some (bad_selection idx)

-- One round of the loop over the payload's items.
unfoldable pub check_entry : ℕ → Option (Dict ℤ String) → String → Json → Option Problem
check_entry count trays slot_str selection = elim (parse_int slot_str) [
  | none ↦ some (invalid_index slot_str)
  | some idx ↦
      if int_ltb idx (pos 0) || int_leb (pos count) idx
      then some (out_of_range idx count)
      else check_selection trays idx selection
]

abbrev or_next : Option Problem → Option Problem → Option Problem
or_next none next = next
or_next (some p) next = some p

unfoldable pub check_entries : ℕ → Option (Dict ℤ String) → Dict String Json → Option Problem
check_entries count trays [] = none
check_entries count trays ((slot_str, selection) ∷ rest) =
    or_next (check_entry count trays slot_str selection) (check_entries count trays rest)

abbrev unless_problem : Json → Option Problem → Checked
unless_problem j none = accepted j
unless_problem j (some p) = refused p

abbrev check_payload : ℕ → Option (Dict ℤ String) → Json → Checked
check_payload count trays (arr js) =
    if all_strings (elements js) then accepted (arr js) else refused list_values
check_payload count trays (obj fs) =
    unless_problem (obj fs) (check_entries count trays (entries fs))
check_payload count trays _ = refused not_a_selection

abbrev check_parsed : ℕ → Option (Dict ℤ String) → Option Json → Checked
check_parsed count trays none = refused invalid_json
check_parsed count trays (some j) = check_payload count trays j

-- An empty text keeps the project's own profiles.
unfoldable pub build_slicer_filament_payload :
    List String → Bool → Option Json → Option (Dict ℤ String) → Checked
build_slicer_filament_payload project_filament_ids empty parsed trays =
    if empty
    then accepted (arr (strings project_filament_ids))
    else check_parsed (length project_filament_ids) trays parsed

-- The tray of a selection, if it is a dict with an integer `tray_slot`.
unfoldable pub tray_of : Json → Option ℤ
tray_of (obj fs) = elim (member "tray_slot" fs) [ none ↦ none | some j ↦ as_int j ]
tray_of _ = none

unfoldable pub extract_entries : Dict String Json → Dict ℤ ℤ → Dict ℤ ℤ
extract_entries [] slots = slots
extract_entries ((slot_str, selection) ∷ rest) slots =
    extract_entries rest (elim (tray_of selection) [
      | none ↦ slots
      | some tray ↦ elim (parse_int slot_str) [
        | none ↦ slots
        | some idx ↦ Dict.insert idx tray slots
      ]
    ])

unfoldable pub extract_selected_tray_slots : Json → Dict ℤ ℤ
extract_selected_tray_slots (obj fs) = extract_entries (entries fs) []
extract_selected_tray_slots _ = []

-- A position looked up in `enumerate(slot_indices)`.
unfoldable pub slot_at : List ℤ → ℤ → Option ℤ
slot_at [] position = none
slot_at (s ∷ ss) (pos zero) = some s
slot_at (s ∷ ss) (pos (suc n)) = slot_at ss (pos n)
slot_at (s ∷ ss) (negsuc n) = none

-- `max(values) + 1`, where a negative maximum gives nothing.
abbrev above : ℤ → ℕ
above (pos n) = suc n
above (negsuc n) = 0

abbrev max_nat : ℕ → ℕ → ℕ
max_nat a b = if ltb a b then b else a

unfoldable pub size_of : List ℤ → ℕ
size_of [] = 0
size_of (s ∷ ss) = max_nat (above s) (size_of ss)

abbrev pub or_count : Option ℕ → ℕ
or_count none = 0
or_count (some n) = n

abbrev pub keys : Dict ℤ ℤ → List ℤ
keys [] = []
keys ((k, v) ∷ m) = k ∷ keys m

unfoldable pub mapping_size : Dict ℤ ℤ → Option ℕ → Option (List ℤ) → ℕ
mapping_size tray_slots count (some slots) = max_nat (size_of slots) (or_count count)
mapping_size tray_slots (some n) none = n
mapping_size tray_slots none none = size_of (keys tray_slots)

unfoldable pub target : Option (List ℤ) → ℤ → Option ℤ
target (some slots) position = slot_at slots position
target none position = some position

-- `ams_mapping[i] = tray`, which the guard has put in range.
abbrev pub set {ℓ} : {A : Type ℓ} → List A → ℕ → A → List A
set [] i v = []
set (x ∷ xs) zero v = v ∷ xs
set (x ∷ xs) (suc i) v = x ∷ set xs i v

abbrev pub place : Option ℤ → ℤ → List ℤ × Bool → List ℤ × Bool
place none tray (mapping, use_ams) = (mapping, use_ams)
place (some (negsuc n)) tray (mapping, use_ams) = (mapping, use_ams)
place (some (pos slot)) tray (mapping, use_ams) =
    if leb (length mapping) slot then (mapping, use_ams) else (set mapping slot tray, true)

unfoldable pub place_all : Option (List ℤ) → Dict ℤ ℤ → List ℤ × Bool → List ℤ × Bool
place_all slots [] acc = acc
place_all slots ((position, tray) ∷ rest) acc =
    place_all slots rest (place (target slots position) tray acc)

abbrev mapping_from : Dict ℤ ℤ → Option ℕ → Option (List ℤ) → List ℤ × Bool
mapping_from tray_slots count slots =
    place_all slots tray_slots (replicate (mapping_size tray_slots count slots) (negsuc 0), false)

abbrev some_mapping : List ℤ × Bool → Option (List ℤ) × Bool
some_mapping (mapping, use_ams) = (some mapping, use_ams)

abbrev unless_empty : Dict ℤ ℤ → Option ℕ → Option (List ℤ) → Option (List ℤ) × Bool
unless_empty [] count slots = (none, false)
unless_empty (e ∷ es) count slots = some_mapping (mapping_from (e ∷ es) count slots)

unfoldable pub build_ams_mapping : Json → Option ℕ → Option (List ℤ) → Option (List ℤ) × Bool
build_ams_mapping payload count slots =
    unless_empty (extract_selected_tray_slots payload) count slots
