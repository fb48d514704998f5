-- ===== src/SliceJobs/Run.antt =====
-- `_run_job` of app/slice_jobs.py, over what its awaits return: each is an input, with the time at
-- which it comes. The AMS mapping that is handed to the printer is `build_ams_mapping` of Filament.
pub mod Effects
pub mod Loop
pub mod Print
pub mod Steps
pub mod Writes
pub mod Looping
pub mod Outcome
pub mod Events
pub mod Delivery
use bambu_gateway.Prelude.{
  ℕ, String, Bool, true, false, Option, none, some, List, [], ◌∷◌, if◌then◌else◌, length, ◌==◌,
  string_eq,
}
use bambu_gateway.Printer.{PrinterStatus}
use bambu_gateway.SliceJobs.{slicing, cancelled, SliceJob, no_output, slicing_failed}
use Effects.{World, Written, wrote, unwritten, set_status, fail}
use Loop.{Round, Sliced, LoopState, LoopEnd, loop_cancelled, loop_failed, loop_stopped, loop}
use Print.{Target, RunEnd, ended, crashed, run_end, is_printer_idle, ready_only, auto_print}

-- `thumbnail_of` reads the sliced archive; `status` is the printer's, asked when the slice is done.
pub record Inputs : Type 0 where
  pub cancel_set : Bool
  pub writes : List (Option String)
  pub picked_at : ℕ
  pub input_readable : Bool
  pub rounds : List (ℕ × Round)
  pub output_path : String
  pub output_writable : Bool
  pub thumbnail_of : List ℕ → Option String
  pub status : Option PrinterStatus
  pub target : Target

abbrev pub with_result : Inputs → Sliced → World → World
with_result i s w = record w {
  job = record (w.job) {
    output_path = some i.output_path;
    output_size = some (length s.bytes);
    estimate = s.estimate;
    settings_transfer = s.settings_transfer;
    thumbnail = i.thumbnail_of s.bytes;
    progress = 100;
    phase = none;
  };
}

abbrev printer_or_empty : Option String → String
printer_or_empty none = ""
printer_or_empty (some p) = p

-- An automatic print needs a printer, and one that counts as idle.
unfoldable pub finish : Inputs → Sliced → World → RunEnd
finish i s w =
    let printer = printer_or_empty w.job.printer_id in
    if w.job.auto_print
    then (if printer == ""
        then run_end (ready_only w)
        else if is_printer_idle printer i.status
        then auto_print (length s.bytes) i.target w
        else run_end (ready_only w))
    else run_end (ready_only w)

-- The exception of a write in the `try` of the loop is one of slicing.
abbrev pub or_fail : Written → RunEnd
or_fail (wrote w) = ended w
or_fail (unwritten e w) = run_end (fail (slicing_failed e) w)

unfoldable pub after_loop : Inputs → LoopEnd → RunEnd
after_loop i (loop_cancelled w) = or_fail (set_status cancelled none w)
after_loop i (loop_failed message w) = run_end (fail message w)
after_loop i (loop_stopped l) = elim l.sliced [
  | none ↦ run_end (fail (no_output l.events_seen) l.world)
  | some s ↦ if i.output_writable then finish i s (with_result i s l.world) else crashed l.world
]

abbrev pub loop_start : World → LoopState
loop_start w = record { world = w; sliced = none; last_write = 0; events_seen = [] }

abbrev pub slice_started : Inputs → Written → RunEnd
slice_started i (wrote w) =
    if i.input_readable then after_loop i (loop i.rounds (loop_start w)) else crashed w
slice_started i (unwritten e w) = crashed w

unfoldable pub run_job : Inputs → World → RunEnd
run_job i w0 =
    let w = record w0 { now = i.picked_at; writes = i.writes } in
    if i.cancel_set
    then run_end (set_status cancelled none w)
    else slice_started i (set_status slicing (some "slicing") w)
