-- ===== src/Mqtt/Tests.antt =====
-- A sample printer and reports, with the theorems at them.
use bambu_gateway.Prelude.{ℕ, ◌≡◌, refl, true, false, Option, none, some, [], ◌∷◌, arith, nat_eq}
use bambu_gateway.Prelude.Int.{ℤ, pos, negsuc}
use bambu_gateway.Prelude.Json.{as_int, num, str, obj, arr, nil, cons, Fields, end, field, member}
use bambu_gateway.Prelude.Dict
use bambu_gateway.HmsCodes.{current_error_description}
use bambu_gateway.Filament.Validation.{int_of}
use bambu_gateway.Printer.{PrintJob, idle}
use bambu_gateway.Mqtt.Commands.{next_sequence_id}
use bambu_gateway.Mqtt.Commands.Cycle.{id_after, value_after}
use bambu_gateway.Mqtt.Report.{
  Live, empty_job, run, on_key, set_speed, reported_refill, set_refill, apply_job, with_job,
  any_key, error_value, set_error_code, derive, describe, drop_job,
}
use bambu_gateway.Mqtt.Apply.{
  Builtins, Holds, applied, new_gcode_state, apply_with, speed_part, refill_part, put_error,
  finish_report, apply_print_payload,
}
use bambu_gateway.Mqtt.Apply.Speed.{left_by, apply_print_payload-speed_level}
use bambu_gateway.Mqtt.Apply.Consistent.{IsConsistent, apply_print_payload-IsConsistent}
use bambu_gateway.Mqtt.Ams.{Tray, absent, AmsReport, Reader}
use bambu_gateway.ConfigStore.{PrinterConfig}
use bambu_gateway.Mqtt.Client.{Client, new_client, new_status}
use bambu_gateway.Prelude.Show.{reverse_text}

abbrev config : PrinterConfig
config = record {
  ip = "10.0.0.2";
  access_code = "12345678";
  serial = "01S00A1234";
  name = "";
  machine_model = "A1";
  default_plate_type = "";
}

abbrev printer : Client
printer = new_client config

abbrev py : Builtins
py = record {
  float_of = λ _. none;
  text_of = λ _. "";
  descriptions = record { hms_codes = []; print_errors = [] };
}

name_of_serial : printer.live.status.name ≡ "Printer 1234"
unfolding new_client new_status reverse_text
name_of_serial = refl

wraps : id_after 1 ≡ 20001
unfolding id_after next_sequence_id value_after
wraps = refl

-- An idle printer that still has a job at zero percent.
abbrev live : Option PrintJob → ℤ → Live
live job level = record {
  status = record {
    id = "01S00A1234";
    name = "A1";
    machine_model = "A1";
    default_plate_type = "";
    online = true;
    state = idle;
    stg_cur = negsuc 0;
    stage_name = none;
    stage_category = none;
    speed_level = level;
    active_tray = none;
    job = job;
    hms_codes = [];
    print_error = pos 0;
    error_message = none;
  };
  nozzle_temp = (pos 0, 0);
  nozzle_target = (pos 0, 0);
  bed_temp = (pos 0, 0);
  bed_target = (pos 0, 0);
  ams_auto_refill_supported = none;
  ams_auto_refill_enabled = none;
}

abbrev at_level : Live
at_level = live (some empty_job) (pos 2)

-- A report of a higher speed, one second after the level 2 was set.
abbrev faster : Fields
faster = field "spd_lvl" (num (pos 4)) end

abbrev early : Holds
early = record { now = 1000; speed_until = 3000; refill_until = 0 }

apply_print_payload-speed_level_example :
    (left_by (apply_print_payload py early "IDLE" faster at_level)).status.speed_level
    ≡ at_level.status.speed_level
apply_print_payload-speed_level_example =
    apply_print_payload-speed_level py early "IDLE" faster at_level (omega arith)

abbrev units : Fields
units =
    field "ams"
      (obj (
        field "ams"
          (arr (
            cons
              (obj (
                field "id" (str "1") (
                  field "tray"
                    (arr (
                      cons (obj (field "id" (str "0") end))
                        (cons (obj (field "id" (str "3") end)) nil)))
                    end)))
              nil))
          end))
      end

abbrev reader : Reader
reader = record { float_of = λ _. none; text_of = λ _. ""; module_types = [] }

abbrev tray : ℕ → ℕ → Tray
tray slot id =
    ("slot", num (pos slot))
    ∷ ("ams_id", num (pos 1))
    ∷ ("tray_id", num (pos id))
    ∷ ("remain", num (negsuc 0))
    ∷ []

abbrev two_trays : AmsReport
two_trays = record {
  ams_present = true;
  trays = tray 4 0 ∷ tray 7 3 ∷ [];
  units =
      record {
        id = pos 1;
        humidity = negsuc 0;
        temperature = (pos 0, 0);
        tray_count = 2;
        hw_version = "";
        ams_type = none;
        supports_drying = false;
        max_drying_temp = 55;
        dry_time_remaining = pos 0;
      }
      ∷ [];
  active_tray = none;
  vt_tray = absent;
}

abbrev late : Holds
late = record { now = 5000; speed_until = 3000; refill_until = 0 }

abbrev sped_up : Live
sped_up = live none (pos 4)

sped_up_read : apply_print_payload py late "IDLE" faster at_level ≡ applied sped_up "IDLE"
unfolding apply_print_payload new_gcode_state member Dict.lookup apply_with run on_key speed_part
    set_speed int_of as_int refill_part reported_refill set_refill apply_job with_job any_key
    put_error error_value set_error_code finish_report derive describe drop_job
    current_error_description
sped_up_read = refl

apply_print_payload-IsConsistent_example : IsConsistent py.descriptions sped_up
apply_print_payload-IsConsistent_example =
    apply_print_payload-IsConsistent py late "IDLE" "IDLE" faster at_level sped_up sped_up_read
