-- ===== src/Tracking/Broker.antt =====
-- `PrintEventBroker` of app/print_tracking.py: what its lock guards, and the operations. Python's
-- `str`, `urlparse` (scheme and path; `none` is its ValueError) and the first 16 hexadecimal digits
-- of SHA-256 are arguments; bytes are numbers.
pub mod Build
pub mod Update
pub mod Boundary
pub mod Steps
pub mod Registered
use bambu_gateway.Prelude.{
  ℕ, zero, suc, ◌+◌, String, Bool, true, false, not, ◌&&◌, ◌||◌, Option, none, some, List, [], ◌∷◌,
  ◌++◌, if◌then◌else◌, nat_beq, leb, length, ◌==◌, string_eq, is_in,
}
use bambu_gateway.Prelude.Int.{ℤ, pos, negsuc}
use bambu_gateway.Prelude.Json.{
  Json, null, bool, num, decimal, str, arr, obj, Items, nil, cons, Fields, end, field, elements,
  member, truthy,
}
use bambu_gateway.Prelude.Show.{lower, upper, show_nat, ◌<>◌}
use bambu_gateway.Prelude.Dict
use bambu_gateway.Prelude.Dict.{Dict}
use bambu_gateway.Mqtt.Commands.{ints}
use bambu_gateway.Tracking.Reports.{
  put, merge, integer, text, either_of, name_identity, reported_url, path_name, active_tray,
}

abbrev pub Bytes : Type 0
Bytes = List ℕ

pub record Library : Type 0 where
  pub str_of : Json → String
  pub urlparse : String → Option (String × String)
  pub digest : Bytes → String

abbrev terminal_states : List String
terminal_states = "FINISH" ∷ "FAILED" ∷ "FAIL" ∷ "CANCELLED" ∷ "CANCELED" ∷ []

abbrev active_states : List String
active_states = "RUNNING" ∷ "PAUSE" ∷ "PAUSED" ∷ "PREPARE" ∷ "PREPARING" ∷ "SLICING" ∷ []

abbrev pub is_terminal : String → Bool
is_terminal s = is_in s terminal_states

abbrev pub is_active : String → Bool
is_active s = is_in s active_states

pub data SourceKind : Type 0 where
  registered cloud_http http printer_ftps : SourceKind

pub record PrintSource : Type 0 where
  pub job_key : String
  pub kind : SourceKind
  pub filename : String
  pub data_bytes : Option Bytes
  pub path : String
  pub url : String
  pub reason : String
  pub plate_id : ℤ
  pub ams_mapping : Option (List ℤ)

-- The kind is none for a source that is unavailable.
pub record SourceStatus : Type 0 where
  pub available : Bool
  pub kind : Option SourceKind
  pub filename : Option String
  pub url : Option String
  pub reason : Option String

pub record Snapshot : Type 0 where
  pub sequence : ℕ
  pub printer_id : String
  pub job_key : Option String
  pub task_id : Option String
  pub subtask_id : Option String
  pub job_name : Option String
  pub state : String
  pub current_layer : ℤ
  pub total_layers : ℤ
  pub gcode_entry : Option String
  pub ams_mapping : List ℤ
  pub active_tray : Option ℤ
  pub usage_reference : Option Fields
  pub source : SourceStatus
  pub updated_at : Option ℕ

pub record Broker : Type 0 where
  pub printer_id : String
  pub printer_file_available : Bool
  pub raw : Fields
  pub sources : Dict String PrintSource
  pub usage_references : Dict String Fields
  pub pending_source : Option PrintSource
  pub active_job_key : Option String
  pub sequence : ℕ
  pub snapshot : Snapshot

-- `text or None`.
abbrev pub text_option : String → Option String
text_option s = if s == "" then none else some s

abbrev is_given {ℓ} : {A : Type ℓ} → Option A → Bool
is_given none = false
is_given (some _) = true

-- `PrintSource.status`.
unfoldable pub source_status : PrintSource → SourceStatus
source_status s = record {
  available = is_given s.data_bytes || not (s.path == "") || not (s.url == "");
  kind = some s.kind;
  filename = some s.filename;
  url = text_option s.url;
  reason = text_option s.reason;
}

unfoldable pub empty_snapshot : String → Snapshot
empty_snapshot printer_id = record {
  sequence = 0;
  printer_id = printer_id;
  job_key = none;
  task_id = none;
  subtask_id = none;
  job_name = none;
  state = "IDLE";
  current_layer = pos 0;
  total_layers = pos 0;
  gcode_entry = none;
  ams_mapping = [];
  active_tray = none;
  usage_reference = none;
  source = record {
    available = false;
    kind = none;
    filename = none;
    url = none;
    reason = some "No active print source has been reported";
  };
  updated_at = none;
}

unfoldable pub new_broker : String → Bool → Broker
new_broker printer_id available = record {
  printer_id = printer_id;
  printer_file_available = available;
  raw = end;
  sources = [];
  usage_references = [];
  pending_source = none;
  active_job_key = none;
  sequence = 0;
  snapshot = empty_snapshot printer_id;
}

abbrev pub field_text : Library → String → Fields → String
field_text py key fs = text py.str_of (member key fs)

-- `subtask_name` or else `gcode_file`.
abbrev pub name_in : Library → Fields → String
name_in py fs = text py.str_of (either_of (member "subtask_name" fs) (member "gcode_file" fs))

abbrev joined : List String → String
joined [] = ""
joined (x ∷ []) = x
joined (x ∷ y ∷ rest) = x <> ":" <> joined (y ∷ rest)

abbrev is_meaningful : String → Bool
is_meaningful x = not (x == "" || x == "0")

abbrev meaningful : List String → List String
meaningful [] = []
meaningful (x ∷ xs) = let rest = meaningful xs in if is_meaningful x then x ∷ rest else rest

abbrev job_ids : Library → Fields → List String
job_ids py raw = meaningful (
    field_text py "task_id" raw
    ∷ field_text py "subtask_id" raw
    ∷ field_text py "gcode_start_time" raw
    ∷ [])

abbrev pub or_text : Option String → String → String
or_text none s = s
or_text (some k) s = if k == "" then s else k

abbrev fallback_key : Broker → String → Option String × Option String
fallback_key b name = elim b.pending_source [
  | some source ↦ (some source.job_key, none)
  | none ↦
      if name == ""
      then (none, none)
      else (let key = or_text b.snapshot.job_key ("printer:name:" <> name) in (some key, some key))
]

abbrev key_of_ids : Broker → String → List String → Option String × Option String
key_of_ids b name [] = fallback_key b name
key_of_ids b name (x ∷ xs) =
    let key = "printer:" <> joined (x ∷ xs ++ (if name == "" then [] else name ∷ [])) in
    (some key, some key)

-- The key, and the active job key after the call.
unfoldable pub derive_job_key : Library → Broker → Option String × Option String
derive_job_key py b = elim b.active_job_key [
  | some key ↦ (some key, some key)
  | none ↦ key_of_ids b (name_in py b.raw) (job_ids py b.raw)
]
