-- ===== src/SliceJobs/Persist.antt =====
-- `to_dict`, `from_dict` and `SliceJobStore` of app/slice_jobs.py. The lock makes each method one
-- step. `none` is an exception of `from_dict`, which `_load` lets through.
pub mod Durable
use bambu_gateway.Prelude.{
  ℕ, String, Bool, true, false, Option, none, some, List, [], ◌∷◌, if◌then◌else◌, ◌==◌, string_eq,
}
use bambu_gateway.Prelude.Dict
use bambu_gateway.Prelude.Dict.{Dict}
use bambu_gateway.SliceJobs.{
  SliceJobStatus, queued, slicing, uploading, ready, failed, cancelled, SliceJobOf, SliceJob, touch,
}

abbrev pub StoredJob : Type 0
StoredJob = SliceJobOf String

unfoldable pub status_value : SliceJobStatus → String
status_value queued = "queued"
status_value slicing = "slicing"
status_value uploading = "uploading"
status_value ready = "ready"
status_value failed = "failed"
status_value cancelled = "cancelled"

-- `SliceJobStatus(text)`; `none` is its ValueError.
unfoldable pub status_of : String → Option SliceJobStatus
status_of s =
    if s == "queued"
    then some queued
    else if s == "slicing"
    then some slicing
    else if s == "uploading"
    then some uploading
    else if s == "ready"
    then some ready
    else if s == "failed"
    then some failed
    else if s == "cancelled"
    then some cancelled
    else none

module _ {S T : Type 0} where
  -- The same job with another status field.
  unfoldable pub with_status : T → SliceJobOf S → SliceJobOf T
  with_status status j = record {
    id = j.id;
    created_at = j.created_at;
    updated_at = j.updated_at;
    filename = j.filename;
    machine_profile = j.machine_profile;
    process_profile = j.process_profile;
    filament_profiles = j.filament_profiles;
    plate_id = j.plate_id;
    plate_type = j.plate_type;
    project_filament_count = j.project_filament_count;
    printer_id = j.printer_id;
    auto_print = j.auto_print;
    input_path = j.input_path;
    process_overrides = j.process_overrides;
    filament_overrides = j.filament_overrides;
    copies = j.copies;
    output_path = j.output_path;
    slot_indices = j.slot_indices;
    auto_center = j.auto_center;
    status = status;
    progress = j.progress;
    phase = j.phase;
    printed = j.printed;
    estimate = j.estimate;
    settings_transfer = j.settings_transfer;
    output_size = j.output_size;
    thumbnail = j.thumbnail;
    error = j.error;
  }

unfoldable pub to_dict : SliceJob → StoredJob
to_dict job = with_status (status_value job.status) job

-- Jobs stored while printing was still a status of its own are read as ready.
unfoldable pub from_dict : StoredJob → Option SliceJob
from_dict d = elim (status_of (if d.status == "printing" then "ready" else d.status)) [
  | none ↦ none
  | some s ↦ some (with_status s d)
]

-- slice_jobs.json: not there, not JSON, or a list of records.
pub data File : Type 0 where
  missing corrupt : File
  saved : List StoredJob → File

-- `jobs` is none until the first load; `blobs` are the files of the blob folder by path.
pub record JobStore : Type 0 where
  pub file : File
  pub jobs : Option (Dict String SliceJob)
  pub blobs : Dict String (List ℕ)

unfoldable pub load_entries : List StoredJob → Dict String SliceJob → Option (Dict String SliceJob)
load_entries [] jobs = some jobs
load_entries (entry ∷ rest) jobs = elim (from_dict entry) [
  | none ↦ none
  | some job ↦ load_entries rest (Dict.insert entry.id job jobs)
]

abbrev pub load_file : File → Option (Dict String SliceJob)
load_file missing = some []
load_file corrupt = some []
load_file (saved entries) = load_entries entries []

abbrev pub or_load : Option (Dict String SliceJob) → File → Option (Dict String SliceJob)
or_load (some jobs) file = some jobs
or_load none file = load_file file

-- The jobs that `_load` returns, and caches.
unfoldable pub load : JobStore → Option (Dict String SliceJob)
load s = or_load s.jobs s.file

abbrev pub records : Dict String SliceJob → List StoredJob
records [] = []
records ((k, job) ∷ jobs) = to_dict job ∷ records jobs

-- The file is replaced whole, then the cache.
unfoldable pub flush : Dict String SliceJob → JobStore → JobStore
flush jobs s = record s { file = saved (records jobs); jobs = some jobs }

abbrev pub values : Dict String SliceJob → List SliceJob
values [] = []
values ((k, job) ∷ jobs) = job ∷ values jobs

unfoldable pub list_all : JobStore → Option (List SliceJob)
list_all s = elim (load s) [ none ↦ none | some jobs ↦ some (values jobs) ]

unfoldable pub get : String → JobStore → Option (Option SliceJob)
get job_id s = elim (load s) [ none ↦ none | some jobs ↦ some (Dict.lookup job_id jobs) ]

unfoldable pub upsert : ℕ → SliceJob → JobStore → Option JobStore
upsert now job s = elim (load s) [
  | none ↦ none
  | some jobs ↦ some (flush (Dict.insert job.id (touch now job) jobs) s)
]

abbrev unlink : Option String → Dict String (List ℕ) → Dict String (List ℕ)
unlink none blobs = blobs
unlink (some path) blobs = if path == "" then blobs else Dict.remove path blobs

abbrev pub drop_blobs : SliceJob → JobStore → JobStore
drop_blobs job s = record s {
  blobs = unlink job.output_path (unlink (some job.input_path) s.blobs);
}

-- An unknown id changes nothing but the cache.
unfoldable pub delete : String → JobStore → Option JobStore
delete job_id s = elim (load s) [
  | none ↦ none
  | some jobs ↦ elim (Dict.lookup job_id jobs) [
    | none ↦ some (record s { jobs = some jobs })
    | some job ↦ some (drop_blobs job (flush (Dict.remove job_id jobs) s))
  ]
]
