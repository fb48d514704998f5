-- ===== src/Cloud/PrintParams.antt =====
-- app/cloud/print_params.py. `json.dumps` of a list is the list.
use bambu_gateway.Prelude.{
  ℕ, ◌/◌, ◌%◌, String, Bool, Option, none, some, List, [], ◌∷◌, if◌then◌else◌, ◌==◌, string_eq,
}
use bambu_gateway.Prelude.Int.{ℤ, pos, negsuc}
use bambu_gateway.Prelude.Json.{Json, num, obj, Items, nil, cons, end, field}
use bambu_gateway.Prelude.Show.{show_int, ◌<>◌}
use bambu_gateway.Mqtt.Commands.{ints}

abbrev virtual_tray_id : ℕ
virtual_tray_id = 255

abbrev slots_per_ams : ℕ
slots_per_ams = 4

abbrev entry : ℕ → ℕ → Json
entry ams_id slot_id =
    obj (field "ams_id" (num (pos ams_id)) (field "slot_id" (num (pos slot_id)) end))

-- The unit of a tray number, and the slot in it.
unfoldable pub unit_and_slot : ℤ → ℕ × ℕ
unit_and_slot (pos t) = (t / slots_per_ams, t % slots_per_ams)
unit_and_slot (negsuc t) = (virtual_tray_id, virtual_tray_id)

unfoldable pub build_ams_mapping2 : List ℤ → Items
build_ams_mapping2 [] = nil
build_ams_mapping2 (t ∷ ts) =
    let (ams_id, slot_id) = unit_and_slot t in cons (entry ams_id slot_id) (build_ams_mapping2 ts)

-- `none` and an empty mapping are the empty text.
pub record PrintParams : Type 0 where
  pub dev_id : String
  pub task_name : String
  pub project_name : String
  pub preset_name : String
  pub filename : String
  pub config_filename : String
  pub plate_index : ℤ
  pub ams_mapping : Option Items
  pub ams_mapping2 : Option Items
  pub task_use_ams : Bool

abbrev nonempty_list : Option (List ℤ) → Option (List ℤ)
nonempty_list (some (t ∷ ts)) = some (t ∷ ts)
nonempty_list _ = none

abbrev of_list : (List ℤ → Items) → Option (List ℤ) → Option Items
of_list f none = none
of_list f (some ts) = some (f ts)

-- `none` is the ValueError of an empty `dev_id`; the constant fields are left out.
unfoldable pub build_print_params :
    String → String → ℤ → String → Option (List ℤ) → Bool → String → Option PrintParams
build_print_params dev_id project_name plate_index gcode_3mf_path ams_mapping use_ams preset_name =
    let ams_list = nonempty_list ams_mapping in
    if dev_id == ""
    then none
    else some (record {
      dev_id = dev_id;
      task_name = project_name <> "_plate_" <> show_int plate_index;
      project_name = project_name;
      preset_name = preset_name;
      filename = gcode_3mf_path;
      config_filename = gcode_3mf_path;
      plate_index = plate_index;
      ams_mapping = of_list ints ams_list;
      ams_mapping2 = of_list build_ams_mapping2 ams_list;
      task_use_ams = use_ams;
    })
