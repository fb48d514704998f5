-- ===== src/SliceJobs/Tests.antt =====
-- A job that is sliced and printed on its own, in a store with an interrupted job beside it.
mod Running
use bambu_gateway.Prelude.{
  ℕ, ◌≡◌, refl, String, true, false, Option, none, some, List, [], ◌∷◌, ◌++◌, arith, if◌then◌else◌,
  ◌&&◌, string_eq, ◌==◌,
}
use bambu_gateway.Prelude.Int.{pos, negsuc}
use bambu_gateway.Prelude.Json.{obj, end}
use bambu_gateway.Prelude.Dict
use bambu_gateway.Prelude.Dict.{Dict}
use bambu_gateway.Printer.{PrinterStatus, printing}
use bambu_gateway.Filament.Validation.{passes, validate_selected_trays}
use bambu_gateway.SliceJobs.{slicing, SliceJob, Request, new_job, touch}
use bambu_gateway.SliceJobs.Persist.{
  JobStore, missing, load, get, upsert, delete, list_all, flush, from_dict, to_dict, drop_blobs,
}
use bambu_gateway.SliceJobs.Persist.Durable.{
  IsValid, restart, from_dict-to_dict, load-restart-upsert, get-upsert_deleted,
}
use bambu_gateway.SliceJobs.Run.{Inputs, finish, run_job, after_loop}
use bambu_gateway.SliceJobs.Run.Effects.{World, store, set_status}
use bambu_gateway.SliceJobs.Run.Loop.{
  progress, percent, result, blob, done, event, Sliced, loop, on_event, on_progress,
  throttled_store,
}
use bambu_gateway.SliceJobs.Run.Print.{
  Target, submitted, uploaded, ended, crashed, send, is_printer_idle, gcode_state_of, auto_print,
}
use bambu_gateway.SliceJobs.Run.Steps.{Trail, Done}
use bambu_gateway.SliceJobs.Run.Outcome.{
  Waiting, fresh, world_of, run_job-Trail, run_job-Done, run_job-crashed,
}
use bambu_gateway.SliceJobs.Run.Events.{until_done}
use bambu_gateway.SliceJobs.Run.Delivery.{run_job-last_result, run_job-no_output}
use bambu_gateway.SliceJobs.Manager.{
  Manager, enqueue, interrupt, recover_jobs, recover_as, recover_on_startup, submit, cancel,
}
use bambu_gateway.SliceJobs.Manager.Handled.{recovered, waiting}
use bambu_gateway.SliceJobs.Manager.Recovery.{map_option, recover_on_startup_lem}
use bambu_gateway.SliceJobs.Manager.Recovery.Resting.{is_resting, recover_on_startup-is_resting}
use bambu_gateway.SliceJobs.Manager.Requests.{is_active, raised, cancel_lem, submit_lem}

abbrev request : Request
request = record {
  filename = "cube.3mf";
  machine_profile = "GM014";
  process_profile = "GP004";
  filament_profiles = obj end;
  plate_id = 1;
  plate_type = "";
  project_filament_count = none;
  printer_id = some "P1";
  auto_print = true;
  process_overrides = none;
  filament_overrides = none;
  copies = 1;
  slot_indices = none;
  auto_center = none;
}

abbrev cube : SliceJob
cube = new_job "a" 0 "a.input" request

abbrev busy : SliceJob
busy = record cube { id = "b"; status = slicing }

abbrev jobs : Dict String SliceJob
jobs = ("a", cube) ∷ ("b", busy) ∷ []

abbrev full : JobStore
full = record { file = missing; jobs = some jobs; blobs = [] }

full_loads : load full ≡ some jobs
unfolding load
full_loads = refl

jobs-IsValid : IsValid jobs
unfolding Dict.lookup new_job
jobs-IsValid = record { unique = (refl, (refl, tt)); keyed = (refl, (refl, tt)) }

abbrev after_upsert : JobStore
after_upsert = flush (Dict.insert "b" (touch 5 busy) jobs) full

upsert-busy : upsert 5 busy full ≡ some after_upsert
unfolding upsert load
upsert-busy = refl

load-restart-upsert_example :
    let jobs' = Dict.insert "b" (touch 5 busy) jobs in
    (load (restart after_upsert) ≡ some jobs') × (load after_upsert ≡ some jobs') × IsValid jobs'
load-restart-upsert_example =
    load-restart-upsert 5 busy full after_upsert jobs full_loads jobs-IsValid upsert-busy

abbrev deleted : JobStore
deleted = drop_blobs busy (flush (Dict.remove "b" jobs) full)

delete_busy : delete "b" full ≡ some deleted
unfolding delete load Dict.lookup new_job
delete_busy = refl

abbrev revived : JobStore
revived = flush (Dict.insert "b" (touch 5 busy) (Dict.remove "b" jobs)) deleted

revive_busy : upsert 5 busy deleted ≡ some revived
unfolding upsert load flush
revive_busy = refl

abbrev extract : List ℕ → ℕ → Option String
extract bytes plate = none

abbrev clock : String → ℕ
clock id = 7

abbrev manager : Manager
manager = record { store = full; queue = []; cancel_events = ("a", false) ∷ [] }

recover_on_startup_lem_example :
    (next : Manager) × (left : Dict String SliceJob) × (recover_on_startup extract clock manager
      ≡ some next)
    × (load next.store ≡ some left)
    × ((k : String)
        → Dict.lookup k left ≡ map_option (recovered extract [] clock) (Dict.lookup k jobs))
    × (next.queue ≡ [] ++ waiting (cube ∷ busy ∷ []))
recover_on_startup_lem_example =
    recover_on_startup_lem extract clock manager jobs full_loads jobs-IsValid

abbrev interrupted_busy : SliceJob
interrupted_busy = touch 7 (interrupt busy)

abbrev recovered_jobs : Dict String SliceJob
recovered_jobs = ("a", cube) ∷ ("b", interrupted_busy) ∷ []

abbrev recovered_manager : Manager
recovered_manager = record {
  store = flush recovered_jobs full;
  queue = "a" ∷ [];
  cancel_events = ("a", false) ∷ [];
}

manager_recovers : recover_on_startup extract clock manager ≡ some recovered_manager
unfolding recover_on_startup recover_jobs recover_as new_job list_all load upsert enqueue
    Dict.insert interrupt
manager_recovers = refl

recovered_loads : load recovered_manager.store ≡ some recovered_jobs
unfolding load flush
recovered_loads = refl

busy_found : Dict.lookup "b" recovered_jobs ≡ some interrupted_busy
unfolding Dict.lookup
busy_found = refl

recover_on_startup-is_resting_example : is_resting interrupted_busy.status ≡ true
recover_on_startup-is_resting_example =
    recover_on_startup-is_resting extract clock manager recovered_manager jobs recovered_jobs "b"
      interrupted_busy full_loads jobs-IsValid manager_recovers recovered_loads busy_found

abbrev first : String
first = "a"

abbrev other : String
other = "b"

abbrev new : String
new = "c"

cancel_lem_example :
    let active = is_active (Dict.lookup "a" jobs) in
    (next : Manager) × (cancel "a" manager ≡ some (next, active))
    × (next.store ≡ manager.store)
    × (next.queue ≡ manager.queue)
    × (Dict.lookup "a" next.cancel_events ≡ (
        if active && first == first
        then raised (Dict.lookup "a" manager.cancel_events)
        else Dict.lookup "a" manager.cancel_events))
cancel_lem_example = cancel_lem "a" manager jobs "a" full_loads

submit_lem_example :
    (next : Manager) × (submit "c" 9 "c.input" (4 ∷ []) request true manager
      ≡ some (next, new_job "c" 9 "c.input" request))
    × (get "b" next.store
        ≡ some
            (if new == other then some (new_job "c" 9 "c.input" request) else Dict.lookup "b" jobs))
    × (Dict.lookup "c.input" next.store.blobs ≡ some (4 ∷ []))
    × (Dict.lookup "c" next.cancel_events ≡ some false)
    × (next.queue ≡ (if true then [] ++ "c" ∷ [] else []))
submit_lem_example = submit_lem "c" 9 "c.input" (4 ∷ []) request true manager jobs "b" full_loads
