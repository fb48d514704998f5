-- ===== src/SliceJobs/Tests/Running.antt =====
-- The job is run.
use bambu_gateway.Prelude.{ℕ, ◌≡◌, refl, true, false, none, some, List, [], ◌∷◌, arith, string_eq}
use bambu_gateway.Prelude.Int.{pos, negsuc}
use bambu_gateway.Printer.{PrinterStatus, printing}
use bambu_gateway.Filament.Validation.{validate_selected_trays}
use bambu_gateway.SliceJobs.{
  SliceJobStatus, is_terminal, no_output, slicing, ready, failed, SliceJob, new_job, touch,
}
use bambu_gateway.SliceJobs.Run.{Inputs, finish, run_job, after_loop}
use bambu_gateway.SliceJobs.Run.Effects.{World, put_record, store, set_status}
use bambu_gateway.SliceJobs.Run.Loop.{
  progress, percent, result, blob, SlicerEvent, done, event, Sliced, loop, on_event, on_progress,
  throttled_store,
}
use bambu_gateway.SliceJobs.Run.Print.{
  Target, submitted, uploaded, ended, crashed, is_printer_idle, gcode_state_of, auto_print, send,
  cloud_done, printed_ready,
}
use bambu_gateway.SliceJobs.Run.Steps.{Trail, Done}
use bambu_gateway.SliceJobs.Run.Outcome.{
  Waiting, fresh, world_of, Traced, run_job-Trail, run_job-Done, run_job-crashed,
}
use bambu_gateway.SliceJobs.Run.Events.{until_done}
use bambu_gateway.SliceJobs.Run.Delivery.{run_job-last_result, run_job-no_output}
use bambu_gateway.SliceJobs.Tests.{cube}

cube-Waiting : Waiting cube
unfolding new_job
cube-Waiting = record { queue = refl; bounded = omega arith; unprinted = refl }

abbrev printing_status : PrinterStatus
printing_status = record {
  id = "P1";
  name = "Printer";
  machine_model = "";
  default_plate_type = "";
  online = true;
  state = printing;
  stg_cur = negsuc 0;
  stage_name = none;
  stage_category = none;
  speed_level = pos 0;
  active_tray = none;
  job = none;
  hms_codes = [];
  print_error = pos 0;
  error_message = none;
}

abbrev print_target : Target
print_target = record {
  ams = none;
  cloud = some submitted;
  polls = [];
  upload_end = uploaded;
  ended_at = 4000;
}

abbrev inputs : Inputs
inputs = record {
  cancel_set = false;
  writes = [];
  picked_at = 500;
  input_readable = true;
  rounds =
      (1000, event (progress (percent (pos 40)) none none))
      ∷ (2000, event (result (blob (1 ∷ 2 ∷ [])) none none))
      ∷ (3000, event done)
      ∷ [];
  output_path = "a.output";
  output_writable = true;
  thumbnail_of = λ bytes. none;
  status = some printing_status;
  target = print_target;
}

run_job-Trail_example : Traced (run_job inputs (fresh cube true))
run_job-Trail_example = run_job-Trail inputs cube true cube-Waiting

cube_ends : run_job inputs (fresh cube true) ≡ ended (world_of (run_job inputs (fresh cube true)))
unfolding run_job after_loop loop on_event on_progress throttled_store finish is_printer_idle
    gcode_state_of auto_print validate_selected_trays new_job store touch set_status put_record send
    cloud_done printed_ready
cube_ends = refl

run_job-Done_example : Done (world_of (run_job inputs (fresh cube true)))
run_job-Done_example =
    run_job-Done inputs cube true (world_of (run_job inputs (fresh cube true))) cube-Waiting
      cube_ends

-- A printer that prints counts as idle.
busy_is_idle : is_printer_idle "P1" (some printing_status) ≡ true
unfolding is_printer_idle gcode_state_of
busy_is_idle = refl

-- The write of the finished job raises.
abbrev full_disk : Inputs
full_disk = record inputs { writes = none ∷ none ∷ none ∷ some "No space left on device" ∷ [] }

abbrev left_world : World
left_world = world_of (run_job full_disk (fresh cube true))

cube_crashes : run_job full_disk (fresh cube true) ≡ crashed left_world
unfolding run_job after_loop loop on_event on_progress throttled_store finish is_printer_idle
    gcode_state_of auto_print validate_selected_trays new_job store touch set_status put_record send
    cloud_done printed_ready
cube_crashes = refl

run_job-crashed_example :
    ((s : SliceJobStatus) × Trail left_world.stored s × (is_terminal s ≡ false))
    × (left_world.sent ≡ [])
run_job-crashed_example = run_job-crashed full_disk cube true left_world cube-Waiting cube_crashes

-- The input file cannot be read: the job stays in slicing.
unreadable_crashes :
    (world_of (run_job (record inputs { input_readable = false }) (fresh cube true))).job.status
    ≡ slicing
unfolding run_job set_status store put_record touch
unreadable_crashes = refl

abbrev sliced : Sliced
sliced = record { bytes = 1 ∷ []; estimate = none; settings_transfer = none }

abbrev by_hand : SliceJob
by_hand = record cube { auto_print = false }

abbrev tick : SlicerEvent
tick = progress (percent (pos 40)) none none

abbrev two_results : List (ℕ × SlicerEvent)
two_results =
    (1000, tick)
    ∷ (1500, result (blob (9 ∷ [])) none none)
    ∷ (2000, result (blob (1 ∷ [])) none none)
    ∷ []

abbrev hand_inputs : List (ℕ × SlicerEvent) → Inputs
hand_inputs es = record inputs { rounds = until_done es 3000 [] }

run_job-last_result_example :
    (w : World) × (run_job (hand_inputs two_results) (fresh by_hand true) ≡ ended w)
    × (w.job.status ≡ ready)
    × (w.job.output_path ≡ some "a.output")
    × (w.job.output_size ≡ some 1)
    × (w.job.estimate ≡ none)
    × (w.job.progress ≡ 100)
run_job-last_result_example =
    run_job-last_result (hand_inputs two_results) by_hand true two_results 3000 [] sliced refl refl
      refl refl refl (tt, (tt, (tt, tt))) refl refl

abbrev no_result : List (ℕ × SlicerEvent)
no_result = (1000, tick) ∷ []

run_job-no_output_example :
    (w : World) × (run_job (hand_inputs no_result) (fresh by_hand true) ≡ ended w)
    × (w.job.status ≡ failed)
    × (w.job.error ≡ some (no_output ("progress" ∷ "done" ∷ [])))
run_job-no_output_example =
    run_job-no_output (hand_inputs no_result) by_hand true no_result 3000 [] refl refl refl refl
      (tt, tt) refl
