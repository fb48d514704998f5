-- ===== src/Notify/Hub/Tests.antt =====
-- Sample snapshots and events, and the theorems of detection and of the filters at them.
use bambu_gateway.Prelude.{◌≡◌, ◌≢◌, refl, true, none, some, List, [], ◌∷◌, arith}
use bambu_gateway.Prelude.Int.{pos, negsuc}
use bambu_gateway.Prelude.Dict
use bambu_gateway.Printer.{
  PrinterState, printing, paused, state_eq, PrintJob, HmsCode, PrinterStatus,
}
use bambu_gateway.Notify.Detect.{
  NotificationEvent, plain, print_paused, print_resumed, progress_tick, detect_events,
  state_transition_event, transition_events, offline_events, hms_events, tick_events,
}
use bambu_gateway.Notify.Detect.Laws.{types}
use bambu_gateway.Notify.Hub.{
  new_hub, job_fingerprint, handle, dropped, dispatch, is_fingerprint_duplicate, is_deduped,
}
use bambu_gateway.Notify.Hub.Fingerprints.{run, repeat_dropped}
use bambu_gateway.Notify.Hub.Spacing.{Spaced, update_times, update_times-Spaced, dispatch_once}

abbrev job : PrintJob
job = record {
  file_name = "gear.3mf";
  progress = pos 40;
  remaining_minutes = pos 30;
  current_layer = pos 10;
  total_layers = pos 100;
  gcode_start_time = "1700000000";
}

abbrev snapshot : PrinterState → List HmsCode → PrinterStatus
snapshot s warnings = record {
  id = "p1";
  name = "A1";
  machine_model = "";
  default_plate_type = "";
  online = true;
  state = s;
  stg_cur = negsuc 0;
  stage_name = none;
  stage_category = none;
  speed_level = pos 2;
  active_tray = none;
  job = some job;
  hms_codes = warnings;
  print_error = pos 0;
  error_message = none;
}

abbrev warned : List HmsCode
warned = record { attr = "0300_2000"; code = "1" } ∷ []

pause_is_reported :
    types (detect_events (snapshot printing []) (snapshot paused [])) ≡ print_paused ∷ []
unfolding detect_events transition_events state_transition_event offline_events hms_events
    tick_events
pause_is_reported = refl

abbrev pause : NotificationEvent
pause = plain print_paused (snapshot paused [])

abbrev resume : NotificationEvent
resume = plain print_resumed (snapshot printing [])

abbrev tick : NotificationEvent
tick = plain progress_tick (snapshot printing [])

-- A print that is paused, resumed, and paused again an hour later: the second pause alerts nobody.
repeat_dropped_example :
    (handle 3700000 3700000 pause
      (run ((60000, 60000, resume) ∷ []) (handle 50000 50000 pause new_hub).1)).0
    ≡ dropped
unfolding job_fingerprint
repeat_dropped_example =
    repeat_dropped pause pause new_hub ((60000, 60000, resume) ∷ []) 50000 50000 3700000 3700000
      refl (λ e. cc e) refl refl refl ((λ _ e. refl), tt)

first_pause_alerts : (handle 50000 50000 pause new_hub).0 ≡ dispatch
unfolding handle is_fingerprint_duplicate is_deduped job_fingerprint Dict.lookup Dict.insert
    Dict.retain
first_pause_alerts = refl

update_times-Spaced_example : Spaced 0 (
    update_times "p1"
      ((20000, 20000, tick) ∷ (25000, 25000, tick) ∷ (30001, 30001, tick) ∷ [])
      new_hub)
unfolding Dict.lookup
update_times-Spaced_example =
    update_times-Spaced "p1"
      ((20000, 20000, tick) ∷ (25000, 25000, tick) ∷ (30001, 30001, tick) ∷ []) new_hub

dispatch_once_example :
    (handle 70000 70000 pause
      (run ((60000, 60000, resume) ∷ []) (handle 50000 50000 pause new_hub).1)).0
    ≢ dispatch
dispatch_once_example =
    dispatch_once 50000 50000 70000 70000 pause pause new_hub ((60000, 60000, resume) ∷ []) tt
      first_pause_alerts (omega arith, tt) (omega arith) refl
