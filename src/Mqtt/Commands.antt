-- ===== src/Mqtt/Commands.antt =====
-- The command builders of app/mqtt_client.py, as the JSON values that they return. `SequenceId` is
-- the number behind `next_sequence_id`; its lock makes each call one step.
pub mod Cycle
use bambu_gateway.Prelude.{
  ℕ, ◌+◌, ◌/◌, String, Bool, true, false, Option, none, some, List, [], ◌∷◌, if◌then◌else◌, leb,
  is_in, nat_eq,
}
use bambu_gateway.Prelude.Int.{ℤ, pos, negsuc, int_eq}
use bambu_gateway.Prelude.Json.{
  Json, bool, num, str, arr, obj, Items, nil, cons, Fields, end, field,
}
use bambu_gateway.Prelude.Show.{show_nat, show_int, ◌<>◌}

abbrev pub seq_start : ℕ
seq_start = 20000

abbrev pub seq_end : ℕ
seq_end = 30000

-- The number whose text is returned, and the value left for the next call.
unfoldable pub next_sequence_id : ℕ → ℕ × ℕ
next_sequence_id value = (value, if leb seq_end (value + 1) then seq_start else value + 1)

abbrev sequence_id : ℕ → Fields → Fields
sequence_id seq fs = field "sequence_id" (str (show_nat seq)) fs

abbrev envelope : String → Fields → Json
envelope name fs = obj (field name (obj fs) end)

-- The builders are given the number that `next_sequence_id` has returned.
unfoldable pub build_pause_command : ℕ → Json
build_pause_command seq = envelope "print" (sequence_id seq (field "command" (str "pause") end))

unfoldable pub build_resume_command : ℕ → Json
build_resume_command seq = envelope "print" (sequence_id seq (field "command" (str "resume") end))

unfoldable pub build_cancel_command : ℕ → Json
build_cancel_command seq = envelope "print" (sequence_id seq (field "command" (str "stop") end))

unfoldable pub build_speed_command : ℕ → ℤ → Json
build_speed_command seq level = envelope "print" (
    sequence_id seq
      (field "command" (str "print_speed") (field "param" (str (show_int level)) end)))

unfoldable pub build_ams_start_drying_command : ℕ → ℤ → ℤ → ℕ → Json
build_ams_start_drying_command seq ams_id temperature duration_minutes = envelope "print" (
    sequence_id seq (
      field "command" (str "ams_filament_drying") (
        field "ams_id" (num ams_id) (
          field "temp" (num temperature) (
            field "cooling_temp" (num (pos 45)) (
              field "duration" (num (pos (duration_minutes / 60))) (
                field "humidity" (num (pos 0))
                  (field "mode" (num (pos 1)) (field "rotate_tray" (bool false) end)))))))))

unfoldable pub build_light_command : ℕ → Bool → String → Json
build_light_command seq on node = envelope "system" (
    sequence_id seq (
      field "command" (str "ledctrl") (
        field "led_node" (str node) (
          field "led_mode" (str (if on then "on" else "off")) (
            field "led_on_time" (num (pos 500)) (
              field "led_off_time" (num (pos 500))
                (field "loop_times" (num (pos 0)) (field "interval_time" (num (pos 0)) end))))))))

unfoldable pub build_ams_stop_drying_command : ℕ → ℤ → Json
build_ams_stop_drying_command seq ams_id = envelope "print" (
    sequence_id seq (
      field "command" (str "ams_filament_drying") (
        field "ams_id" (num ams_id) (
          field "temp" (num (pos 0)) (
            field "cooling_temp" (num (pos 45)) (
              field "duration" (num (pos 0)) (
                field "humidity" (num (pos 0))
                  (field "mode" (num (pos 0)) (field "rotate_tray" (bool false) end)))))))))

unfoldable pub build_ams_auto_refill_command : ℕ → Bool → Json
build_ams_auto_refill_command seq enabled = envelope "print" (
    sequence_id seq
      (field "command" (str "print_option") (field "auto_switch_filament" (bool enabled) end)))

abbrev pub virtual_tray_main_id : ℤ
virtual_tray_main_id = pos 255

abbrev pub virtual_tray_deputy_id : ℤ
virtual_tray_deputy_id = pos 254

unfoldable pub wire_tray_id : ℤ → ℤ → ℤ
wire_tray_id ams_id tray_id =
    if is_in ams_id (virtual_tray_main_id ∷ virtual_tray_deputy_id ∷ [])
    then virtual_tray_deputy_id
    else tray_id

-- The keyword arguments in the order of the loop; a `none` is left out.
unfoldable pub optional_fields : List (String × Option Json) → Fields
optional_fields [] = end
optional_fields ((key, none) ∷ rest) = optional_fields rest
optional_fields ((key, some value) ∷ rest) = field key value (optional_fields rest)

pub record Spool : Type 0 where
  pub tag_uid : Option Json
  pub bed_temp : Option Json
  pub tray_weight : Option Json
  pub remain : Option Json
  pub k : Option Json
  pub n : Option Json
  pub tray_uuid : Option Json
  pub cali_idx : Option Json

abbrev pub spool_fields : Spool → List (String × Option Json)
spool_fields s =
    ("tag_uid", s.tag_uid)
    ∷ ("bed_temp", s.bed_temp)
    ∷ ("tray_weight", s.tray_weight)
    ∷ ("remain", s.remain)
    ∷ ("k", s.k)
    ∷ ("n", s.n)
    ∷ ("tray_uuid", s.tray_uuid)
    ∷ ("cali_idx", s.cali_idx)
    ∷ []

unfoldable pub build_ams_filament_setting :
    ℕ → ℤ → ℤ → String → String → String → ℤ → ℤ → String → Spool → Json
build_ams_filament_setting seq ams_id tray_id tray_info_idx tray_color tray_type temp_min temp_max
      setting_id spool =
    envelope "print" (
      sequence_id seq (
        field "command" (str "ams_filament_setting") (
          field "ams_id" (num ams_id) (
            field "slot_id" (num tray_id) (
              field "tray_id" (num (wire_tray_id ams_id tray_id)) (
                field "tray_info_idx" (str tray_info_idx) (
                  field "setting_id" (str setting_id) (
                    field "tray_color" (str tray_color) (
                      field "nozzle_temp_min" (num temp_min) (
                        field "nozzle_temp_max" (num temp_max) (
                          field "tray_type" (str tray_type)
                            (optional_fields (spool_fields spool)))))))))))))

abbrev pub ints : List ℤ → Items
ints [] = nil
ints (n ∷ ns) = cons (num n) (ints ns)

-- `ams_mapping or [0]`.
abbrev pub mapping_or_zero : Option (List ℤ) → List ℤ
mapping_or_zero none = pos 0 ∷ []
mapping_or_zero (some []) = pos 0 ∷ []
mapping_or_zero (some (n ∷ ns)) = n ∷ ns

-- The payload of `send_print_command`.
unfoldable pub print_command : ℕ → String → ℕ → Option (List ℤ) → Bool → Json
print_command seq filename plate_id ams_mapping use_ams = envelope "print" (
    sequence_id seq (
      field "command" (str "project_file") (
        field "param" (str ("Metadata/plate_" <> show_nat plate_id <> ".gcode")) (
          field "url" (str ("file:///sdcard/cache/" <> filename)) (
            field "bed_type" (str "auto") (
              field "timelapse" (bool false) (
                field "bed_leveling" (bool true) (
                  field "flow_cali" (bool false) (
                    field "vibration_cali" (bool false) (
                      field "layer_inspect" (bool false) (
                        field "use_ams" (bool use_ams) (
                          field "ams_mapping" (arr (ints (mapping_or_zero ams_mapping))) (
                            field "subtask_name" (str filename) (
                              field "profile_id" (str "0") (
                                field "project_id" (str "0") (
                                  field "subtask_id" (str "0")
                                    (field "task_id" (str "0") end)))))))))))))))))

unfoldable pub pushall_command : ℕ → Json
pushall_command seq = envelope "pushing" (sequence_id seq (field "command" (str "pushall") end))

unfoldable pub version_command : ℕ → Json
version_command seq = envelope "info" (sequence_id seq (field "command" (str "get_version") end))
