-- ===== src/Filament/Tests.antt =====
-- A sparse project: its one filament is authored on slot 1 and printed from tray 6.
use bambu_gateway.Prelude.{◌<◌, ◌≡◌, refl, true, none, some, [], ◌∷◌, arith, length, string_eq, All}
use bambu_gateway.Prelude.Int.{pos, negsuc, int_eq}
use bambu_gateway.Prelude.Json.{Json, num, str, obj, field, end, member, as_int, entries}
use bambu_gateway.Prelude.Text.{parse_int}
use bambu_gateway.Prelude.Dict
use bambu_gateway.Filament.{
  build_ams_mapping, extract_selected_tray_slots, extract_entries, tray_of, slot_at, size_of,
  mapping_size, place_all, target,
}
use bambu_gateway.Filament.Mapping.{get_elem?, latest, build_ams_mapping_lem}
use bambu_gateway.Filament.Validation.{
  AmsInfo, tray_slots, int_of, key_of, passes, selections, check_all, validate_selected_trays,
}
use bambu_gateway.Filament.Trays.{Offered, validate_selected_trays-Offered}

abbrev sparse : Json
sparse = obj (
    field "0" (obj (field "profile_setting_id" (str "GFA00") (field "tray_slot" (num (pos 6)) end)))
      end)

sparse_mapping :
    build_ams_mapping sparse (some 1) (some (pos 1 ∷ [])) ≡ (some (negsuc 0 ∷ pos 6 ∷ []), true)
unfolding build_ams_mapping extract_selected_tray_slots extract_entries tray_of member parse_int
    Dict.lookup Dict.insert slot_at size_of mapping_size place_all target as_int
sparse_mapping = refl

sparse_fits : 1 < mapping_size (extract_selected_tray_slots sparse) (some 1) (some (pos 1 ∷ []))
unfolding mapping_size size_of
sparse_fits = omega arith

build_ams_mapping_lem_example :
    (length (negsuc 0 ∷ pos 6 ∷ [])
      ≡ mapping_size (extract_selected_tray_slots sparse) (some 1) (some (pos 1 ∷ [])))
    × (get_elem? (negsuc 0 ∷ pos 6 ∷ []) 1
        ≡ some (latest (some (pos 1 ∷ [])) 1 (extract_selected_tray_slots sparse) (negsuc 0)))
build_ams_mapping_lem_example =
    build_ams_mapping_lem sparse (some 1) (some (pos 1 ∷ [])) (negsuc 0 ∷ pos 6 ∷ []) true 1
      sparse_mapping sparse_fits

abbrev trays : AmsInfo
trays = record { trays = field "slot" (str "6") end ∷ []; vt_tray = none }

sparse_passes : validate_selected_trays sparse (some trays) ≡ passes
unfolding validate_selected_trays selections check_all tray_slots int_of key_of member parse_int
    Dict.insert Dict.lookup
sparse_passes = refl

validate_selected_trays-Offered_example :
    All (Offered (tray_slots (field "slot" (str "6") end ∷ []))) (
      selections (
        entries (
          field "0"
            (obj (field "profile_setting_id" (str "GFA00") (field "tray_slot" (num (pos 6)) end)))
            end)))
validate_selected_trays-Offered_example = validate_selected_trays-Offered _ trays sparse_passes
