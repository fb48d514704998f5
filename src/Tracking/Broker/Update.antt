-- ===== src/Tracking/Broker/Update.antt =====
-- The operations of `PrintEventBroker` in app/print_tracking.py, each as one section of its lock.
-- `publish` tells whether `_fan_out` is called after it.
use bambu_gateway.Prelude.{
  ℕ, String, Bool, true, false, not, ◌&&◌, ◌||◌, Option, none, some, List, [], ◌∷◌, if◌then◌else◌,
  ◌==◌, string_eq,
}
use bambu_gateway.Prelude.Int.{ℤ, pos, int_beq}
use bambu_gateway.Prelude.Json.{Json, str, arr, Fields, end, member}
use bambu_gateway.Prelude.Show.{upper, show_int, ◌<>◌}
use bambu_gateway.Prelude.Dict
use bambu_gateway.Prelude.Dict.{Dict}
use bambu_gateway.Mqtt.Commands.{ints}
use bambu_gateway.Tracking.Reports.{put, merge, integer, name_identity, path_name}
use bambu_gateway.Tracking.Broker.{
  Bytes, Library, is_terminal, is_active, registered, cloud_http, PrintSource, Broker,
  empty_snapshot, field_text, name_in,
}
use bambu_gateway.Tracking.Broker.Build.{build_snapshot, on_printer}

-- An id that is not missing, empty or zero.
abbrev is_id : String → Bool
is_id s = not (s == "" || s == "0")

unfoldable pub id_changed : Library → List String → Fields → Fields → Bool
id_changed py [] report raw = false
id_changed py (key ∷ keys) report raw =
    let new = field_text py key report in
    let old = field_text py key raw in
    is_id new && is_id old && not (new == old) || id_changed py keys report raw

unfoldable pub id_stable : Library → List String → Fields → Fields → Bool
id_stable py [] report raw = false
id_stable py (key ∷ keys) report raw =
    let new = field_text py key report in
    let old = field_text py key raw in is_id new && new == old || id_stable py keys report raw

abbrev state_text : Library → Fields → String
state_text py fs = upper (field_text py "gcode_state" fs)

-- `report.get("command") == "project_file"`.
abbrev is_project : Option Json → Bool
is_project (some (str s)) = s == "project_file"
is_project _ = false

-- A report that may be the first of a job.
abbrev pub starts_job : Library → Fields → Bool
starts_job py report = is_active (state_text py report) || is_project (member "command" report)

unfoldable pub is_boundary : Library → Fields → Fields → Bool
is_boundary py report raw =
    let new = name_in py report in
    let old = name_in py raw in
    is_active (state_text py report) && is_terminal (state_text py raw)
    || (not (new == "")
        && not (old == "")
        && not (id_stable py ("task_id" ∷ "subtask_id" ∷ []) report raw)
        && not (name_identity new == name_identity old)
        && starts_job py report)
    || (id_changed py ("task_id" ∷ "subtask_id" ∷ "gcode_start_time" ∷ []) report raw
        && starts_job py report)

abbrev pending_name : Option PrintSource → String
pending_name none = ""
pending_name (some s) = s.filename

-- The job that a source waits for keeps its key.
unfoldable pub forgets : Library → Fields → Broker → Bool
forgets py report b =
    let waits = pending_name b.pending_source in
    let new = name_in py report in waits == "" || (not (new == "") && not (new == waits))

unfoldable pub reset_job : Library → Fields → Broker → Broker
reset_job py report b =
    if forgets py report b
    then record b {
      raw = end;
      snapshot = empty_snapshot b.printer_id;
      active_job_key = none;
      sources = [];
      usage_references = [];
    }
    else record b { raw = end; snapshot = empty_snapshot b.printer_id }

unfoldable pub update : Library → ℕ → Fields → Broker → Broker
update py now report b =
    let at_job = if is_boundary py report b.raw then reset_job py report b else b in
    build_snapshot py now none (record at_job { raw = merge at_job.raw report })

-- `register_source` with the bytes that it hashes.
abbrev pub source_key : Library → Bytes → String → ℤ → String
source_key py bytes filename plate_id =
    "gateway:" <> py.digest bytes <> ":" <> show_int plate_id <> ":" <> filename

abbrev list_or_empty : Option (List ℤ) → List ℤ
list_or_empty none = []
list_or_empty (some ns) = ns

abbrev pub new_source : String → Bytes → String → ℤ → Option (List ℤ) → PrintSource
new_source key bytes filename plate_id ams_mapping = record {
  job_key = key;
  kind = registered;
  filename = filename;
  data_bytes = some bytes;
  path = "";
  url = "";
  reason = "";
  plate_id = plate_id;
  ams_mapping = some (list_or_empty ams_mapping);
}

abbrev with_request : String → ℤ → List ℤ → Fields → Fields
with_request filename plate_id mapping raw = put "ams_mapping" (arr (ints mapping)) (
    put "param" (str ("Metadata/plate_" <> show_int plate_id <> ".gcode"))
      (put "subtask_name" (str filename) raw))

unfoldable pub register_source :
    Library → ℕ → Bytes → String → ℤ → Option (List ℤ) → Broker → String × Broker
register_source py now bytes filename plate_id ams_mapping b =
    let key = source_key py bytes filename plate_id in
    let source = new_source key bytes filename plate_id ams_mapping in
    (
      key,
      build_snapshot py now (some key) (record b {
        sources = (key, source) ∷ [];
        usage_references = [];
        pending_source = some source;
        active_job_key = some key;
        raw = with_request filename plate_id (list_or_empty ams_mapping) b.raw;
      }),
    )

-- What the caller hands over: the bytes, or else a file whose reading may fail.
pub data SourceData : Type 0 where
  no_data : SourceData
  blob : Bytes → SourceData
  file : Option Bytes → SourceData

-- The ValueError and the error of the reading leave the broker as it is.
unfoldable pub register_given :
    Library → ℕ → SourceData → String → ℤ → Option (List ℤ) → Broker → Option String × Broker
register_given py now no_data filename plate_id mapping b = (none, b)
register_given py now (file none) filename plate_id mapping b = (none, b)
register_given py now (file (some bytes)) filename plate_id mapping b =
    let (key, b') = register_source py now bytes filename plate_id mapping b in (some key, b')
register_given py now (blob bytes) filename plate_id mapping b =
    let (key, b') = register_source py now bytes filename plate_id mapping b in (some key, b')

unfoldable pub set_printer_file_available : Library → ℕ → Bool → Broker → Broker
set_printer_file_available py now available b =
    if available && b.printer_file_available || (not available && not b.printer_file_available)
    then b
    else build_snapshot py now none (record b { printer_file_available = available })

-- No source, or one that the printer would have to serve and cannot.
abbrev pub can_fall_back : Bool → Option PrintSource → Bool
can_fall_back reachable none = true
can_fall_back reachable (some s) = on_printer s && not reachable

abbrev at_least_one : ℤ → ℤ
at_least_one n = if int_beq n (pos 0) then pos 1 else elim n [ pos k ↦ pos k | _ ↦ pos 1 ]

abbrev pub cloud_source : String → String → String → Fields → PrintSource
cloud_source key url path usage = record {
  job_key = key;
  kind = cloud_http;
  filename = path_name path;
  data_bytes = none;
  path = "";
  url = url;
  reason = "";
  plate_id = at_least_one (integer (pos 1) (member "plate_index" usage));
  ams_mapping = none;
}

-- `raised` is the ValueError of `urlparse`, behind the new usage reference.
pub data Enriched : Type 0 where
  enriched rejected broken : Broker → Enriched

abbrev pub is_current : String → Option String → Bool
is_current key none = false
is_current key (some k) = k == key

abbrev pub with_cloud : Library → ℕ → String → String → Fields → Broker → Enriched
with_cloud py now key url usage b = elim (py.urlparse url) [
  | none ↦ broken b
  | some (scheme, path) ↦
      if scheme == "http" || scheme == "https"
      then enriched (
          build_snapshot py now none
            (record b { sources = Dict.insert key (cloud_source key url path usage) b.sources }))
      else enriched (build_snapshot py now none b)
]

abbrev pub with_url : Library → ℕ → String → Option String → Fields → Broker → Enriched
with_url py now key none usage b = enriched (build_snapshot py now none b)
with_url py now key (some url) usage b =
    if not (url == "") && can_fall_back b.printer_file_available (Dict.lookup key b.sources)
    then with_cloud py now key url usage b
    else enriched (build_snapshot py now none b)

unfoldable pub enrich_job : Library → ℕ → String → Fields → Option String → Broker → Enriched
enrich_job py now key usage source_url b =
    if not (key == "") && is_current key b.snapshot.job_key
    then with_url py now key source_url usage (record b { usage_references = (key, usage) ∷ [] })
    else rejected b

unfoldable pub source_for : String → Broker → Option PrintSource
source_for key b =
    if not (key == "") && is_current key b.snapshot.job_key then Dict.lookup key b.sources else none
