-- ===== src/SliceJobs.antt =====
-- app/slice_jobs.py: the job record, its persisted form, the store, the run of a job and the manager.
-- One clock, in milliseconds, stands for `_now` and the monotonic clock. An error text is kept as
-- the constructor of its f-string with the parts; blobs are lists of bytes.
pub mod Persist
pub mod Run
pub mod Manager
mod Tests
use bambu_gateway.Prelude.{
  ℕ, String, Bool, true, false, Option, none, some, List, [], ◌∷◌, if◌then◌else◌, ◌==◌, string_eq,
  Eq, discrete_eq, is_in,
}
use bambu_gateway.Prelude.Int.{ℤ}
use bambu_gateway.Prelude.Json.{Json}
use bambu_gateway.Prelude.Dict.{Dict}
use bambu_gateway.Filament.{Problem}

pub data SliceJobStatus : Type 0 where
  queued slicing uploading ready failed cancelled : SliceJobStatus

abbrev pub SliceJobStatus-discrete : Discrete SliceJobStatus
SliceJobStatus-discrete = hlevel

instance abbrev pub status_eq : Eq SliceJobStatus
status_eq = discrete_eq SliceJobStatus-discrete

unfoldable pub is_terminal : SliceJobStatus → Bool
is_terminal status = is_in status (ready ∷ failed ∷ cancelled ∷ [])

-- "Slicing failed: …", "Slicer produced no output (…)", "Cloud submission failed: …",
-- "Upload failed: …", "interrupted by gateway restart", and the tray warning.
pub data Message : Type 0 where
  slicing_failed cloud_failed upload_failed : String → Message
  no_output : List String → Message
  interrupted : Message
  tray : Json → Message

-- `S` is the status: `SliceJobStatus` in memory, a text in the file.
pub record SliceJobOf (S : Type 0) : Type 0 where
  pub id : String
  pub created_at : ℕ
  pub updated_at : ℕ
  pub filename : String
  pub machine_profile : String
  pub process_profile : String
  pub filament_profiles : Json
  pub plate_id : ℕ
  pub plate_type : String
  pub project_filament_count : Option ℕ
  pub printer_id : Option String
  pub auto_print : Bool
  pub input_path : String
  pub process_overrides : Option (Dict String String)
  pub filament_overrides : Option (Dict String (Dict String String))
  pub copies : ℕ
  pub output_path : Option String
  pub slot_indices : Option (List ℤ)
  pub auto_center : Option Bool
  pub status : S
  pub progress : ℕ
  pub phase : Option String
  pub printed : Bool
  pub estimate : Option Json
  pub settings_transfer : Option Json
  pub output_size : Option ℕ
  pub thumbnail : Option String
  pub error : Option Message

abbrev pub SliceJob : Type 0
SliceJob = SliceJobOf SliceJobStatus

-- The arguments of `SliceJob.new`, less the id and the time.
pub record Request : Type 0 where
  pub filename : String
  pub machine_profile : String
  pub process_profile : String
  pub filament_profiles : Json
  pub plate_id : ℕ
  pub plate_type : String
  pub project_filament_count : Option ℕ
  pub printer_id : Option String
  pub auto_print : Bool
  pub process_overrides : Option (Dict String String)
  pub filament_overrides : Option (Dict String (Dict String String))
  pub copies : ℕ
  pub slot_indices : Option (List ℤ)
  pub auto_center : Option Bool

unfoldable pub new_job : String → ℕ → String → Request → SliceJob
new_job id ts input_path r = record {
  id = id;
  created_at = ts;
  updated_at = ts;
  filename = r.filename;
  machine_profile = r.machine_profile;
  process_profile = r.process_profile;
  filament_profiles = r.filament_profiles;
  plate_id = r.plate_id;
  plate_type = r.plate_type;
  project_filament_count = r.project_filament_count;
  printer_id = r.printer_id;
  auto_print = r.auto_print;
  input_path = input_path;
  process_overrides = r.process_overrides;
  filament_overrides = r.filament_overrides;
  copies = r.copies;
  output_path = none;
  slot_indices = r.slot_indices;
  auto_center = r.auto_center;
  status = queued;
  progress = 0;
  phase = none;
  printed = false;
  estimate = none;
  settings_transfer = none;
  output_size = none;
  thumbnail = none;
  error = none;
}

unfoldable pub touch : ℕ → SliceJob → SliceJob
touch now job = record job { updated_at = now }
