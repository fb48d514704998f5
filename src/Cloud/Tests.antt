-- ===== src/Cloud/Tests.antt =====
-- A submission, and a report on both ways.
use bambu_gateway.Prelude.{◌≡◌, ◌↔◌, ◌&&◌, refl, true, false, not, none, List, [], ◌∷◌, arith, ◌==◌}
use bambu_gateway.Prelude.Int.{pos, int_eq}
use bambu_gateway.Prelude.Json.{Fields, num, field, end}
use bambu_gateway.Mqtt.Report.{on_status}
use bambu_gateway.Mqtt.Apply.{Builtins}
use bambu_gateway.Mqtt.Client.{Client, new_client, update_status}
use bambu_gateway.Cloud.Submit.{Wait, event, submit_print, run_cloud_print}
use bambu_gateway.Cloud.Submit.Frames.{finishes, run_cloud_print-submit_print}
use bambu_gateway.Cloud.Printer.{handle_report}
use bambu_gateway.Cloud.Printer.Agrees.{as_cloud, end_as_cloud, handle_report-update_status}
use bambu_gateway.Cloud.PrintParams.{unit_and_slot}

abbrev waits : List Wait
waits = event (pos 2) (pos 0) "uploading" ∷ event (pos 6) (pos 0) "" ∷ []

run_cloud_print-submit_print_example :
    (run_cloud_print (submit_print false (pos 0) waits) ≡ none)
    ↔ ((not false && pos 0 == pos 0 && finishes waits) ≡ true)
run_cloud_print-submit_print_example = run_cloud_print-submit_print false (pos 0) waits

abbrev py : Builtins
py = record {
  float_of = λ _. none;
  text_of = λ _. "";
  descriptions = record { hms_codes = []; print_errors = [] };
}

abbrev offline_printer : Client
offline_printer = new_client (record {
  ip = "10.0.0.2";
  access_code = "12345678";
  serial = "01S00A1234";
  name = "A1";
  machine_model = "A1";
  default_plate_type = "";
})

abbrev printer : Client
printer = record offline_printer {
  live = on_status (λ s. record s { online = true }) offline_printer.live;
  refill_hold_until = 3000;
}

abbrev stage_report : Fields
stage_report = field "stg_cur" (num (pos 4)) (field "layer_num" (num (pos 3)) end)

handle_report-update_status_example :
    end_as_cloud "01S00A1234" (update_status py 4000 stage_report printer)
    ≡ handle_report py 4000 stage_report (as_cloud "01S00A1234" printer)
handle_report-update_status_example =
    handle_report-update_status "01S00A1234" py 4000 stage_report printer refl (omega arith)

second_unit : unit_and_slot (pos 6) ≡ (1, 2)
unfolding unit_and_slot
second_unit = refl
