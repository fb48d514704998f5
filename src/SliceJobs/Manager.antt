-- ===== src/SliceJobs/Manager.antt =====
-- `SliceJobManager` of app/slice_jobs.py, less its workers: submit, cancel and recovery. `none` is
-- an exception of the store's first load.
pub mod Handled
pub mod Recovery
pub mod Requests
use bambu_gateway.Prelude.{
  ℕ, String, Bool, true, false, Option, none, some, List, [], ◌∷◌, ◌++◌, if◌then◌else◌, ◌==◌,
  string_eq, nat_beq,
}
use bambu_gateway.Prelude.Dict
use bambu_gateway.Prelude.Dict.{Dict}
use bambu_gateway.SliceJobs.{
  SliceJobStatus, queued, slicing, uploading, ready, failed, cancelled, is_terminal, SliceJob,
  interrupted, Request, new_job,
}
use bambu_gateway.SliceJobs.Persist.{JobStore, list_all, get, upsert}

-- `cancel_events`: whether the event of a job is set. The events outlive no restart.
pub record Manager : Type 0 where
  pub store : JobStore
  pub queue : List String
  pub cancel_events : Dict String Bool

abbrev pub with_store : Manager → Option JobStore → Option Manager
with_store m none = none
with_store m (some s) = some (record m { store = s })

abbrev pub put_store : ℕ → SliceJob → Manager → Option Manager
put_store now job m = with_store m (upsert now job m.store)

-- `job.plate_id or 1`.
abbrev plate_of : SliceJob → ℕ
plate_of job = if nat_beq job.plate_id 0 then 1 else job.plate_id

abbrev filled : Option String → Bool
filled none = false
filled (some s) = if s == "" then false else true

abbrev blob_at : Option String → Dict String (List ℕ) → Option (List ℕ)
blob_at none blobs = none
blob_at (some path) blobs = if path == "" then none else Dict.lookup path blobs

-- A file that is not there is an OSError. `extract` is `_extract_plate_thumbnail`.
unfoldable pub healed_thumbnail :
    (List ℕ → ℕ → Option String) → Dict String (List ℕ) → SliceJob → Option String
healed_thumbnail extract blobs job =
    if filled job.thumbnail then none else elim (blob_at job.output_path blobs) [
      | none ↦ none
      | some bytes ↦ extract bytes (plate_of job)
    ]

unfoldable pub interrupt : SliceJob → SliceJob
interrupt job = record job { error = some interrupted; phase = none; status = failed }

unfoldable pub enqueue : String → Manager → Manager
enqueue id m = record m {
  queue = m.queue ++ id ∷ [];
  cancel_events = Dict.insert id false m.cancel_events;
}

abbrev pub heal : ℕ → SliceJob → Manager → Option String → Option Manager
heal now job m none = some m
heal now job m (some t) =
    if t == "" then some m else put_store now (record job { thumbnail = some t }) m

-- The body of the loop of `recover_on_startup`, by the job's status.
unfoldable pub recover_as :
    SliceJobStatus → (List ℕ → ℕ → Option String) → ℕ → SliceJob → Manager → Option Manager
recover_as queued extract now job m = some (enqueue job.id m)
recover_as slicing extract now job m = put_store now (interrupt job) m
recover_as uploading extract now job m = put_store now (interrupt job) m
recover_as ready extract now job m = heal now job m (healed_thumbnail extract m.store.blobs job)
recover_as failed extract now job m = some m
recover_as cancelled extract now job m = some m

-- `now` is the time at which the loop comes to a job.
unfoldable pub recover_jobs :
    (List ℕ → ℕ → Option String) → (String → ℕ) → List SliceJob → Manager → Option Manager
recover_jobs extract now [] m = some m
recover_jobs extract now (job ∷ jobs) m = elim (recover_as job.status extract (now job.id) job m) [
  | none ↦ none
  | some m' ↦ recover_jobs extract now jobs m'
]

unfoldable pub recover_on_startup :
    (List ℕ → ℕ → Option String) → (String → ℕ) → Manager → Option Manager
recover_on_startup extract now m = elim (list_all m.store) [
  | none ↦ none
  | some jobs ↦ recover_jobs extract now jobs m
]

abbrev pub register : Bool → String → Manager → Manager
register put id m =
    if put then enqueue id m else record m { cancel_events = Dict.insert id false m.cancel_events }

-- `id` is the new job's, `now` the time, and `input_path` where the store keeps its input.
unfoldable pub submit :
    String → ℕ → String → List ℕ → Request → Bool → Manager → Option (Manager × SliceJob)
submit id now input_path file_data request put m =
    let blobs = Dict.insert input_path file_data m.store.blobs in
    let job = new_job id now input_path request in
    elim (upsert now job (record (m.store) { blobs = blobs })) [
      | none ↦ none
      | some s ↦ some (register put id (record m { store = s }), job)
    ]

abbrev pub set_event : String → Manager → Manager
set_event id m = elim (Dict.lookup id m.cancel_events) [
  | none ↦ m
  | some e ↦ record m { cancel_events = Dict.insert id true m.cancel_events }
]

unfoldable pub cancel : String → Manager → Option (Manager × Bool)
cancel id m = elim (get id m.store) [
  | none ↦ none
  | some found ↦ elim found [
    | none ↦ some (m, false)
    | some job ↦ if is_terminal job.status then some (m, false) else some (set_event id m, true)
  ]
]
