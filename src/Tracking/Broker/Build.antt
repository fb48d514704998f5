-- ===== src/Tracking/Broker/Build.antt =====
-- `_build_snapshot` of app/print_tracking.py: the source of the job, and the snapshot.
use bambu_gateway.Prelude.{
  ℕ, ◌+◌, String, Bool, true, false, not, ◌&&◌, ◌||◌, Option, none, some, List, [], ◌∷◌,
  if◌then◌else◌, ◌==◌, string_eq,
}
use bambu_gateway.Prelude.Int.{ℤ, pos, negsuc}
use bambu_gateway.Prelude.Json.{Json, arr, Fields, field, elements, member}
use bambu_gateway.Prelude.Show.{lower, upper, show_int, ◌<>◌}
use bambu_gateway.Prelude.Dict
use bambu_gateway.Prelude.Dict.{Dict}
use bambu_gateway.Tracking.Reports.{integer, text, either_of, reported_url, path_name, active_tray}
use bambu_gateway.Tracking.Broker.{
  Library, is_terminal, is_active, http, printer_ftps, PrintSource, SourceStatus, Snapshot, Broker,
  text_option, source_status, field_text, name_in, derive_job_key,
}

-- The source of the job, and what is left of the sources and of the one that waits.
abbrev pub Sources : Type 0
Sources = Option PrintSource × Dict String PrintSource × Option PrintSource

abbrev is_text : Option String → Bool
is_text none = false
is_text (some k) = not (k == "")

-- The source that waits has found its job.
abbrev pub release_pending : String → Option PrintSource → Option PrintSource → Option PrintSource
release_pending state (some source) (some pending) =
    if source.job_key == pending.job_key && is_active state then none else some pending
release_pending state _ pending = pending

abbrev list_or_empty : Option (List ℤ) → List ℤ
list_or_empty none = []
list_or_empty (some ns) = ns

abbrev copied : String → PrintSource → PrintSource
copied key p = record {
  job_key = key;
  kind = p.kind;
  filename = p.filename;
  data_bytes = p.data_bytes;
  path = "";
  url = "";
  reason = "";
  plate_id = p.plate_id;
  ams_mapping = some (list_or_empty p.ams_mapping);
}

abbrev given_to : Option String → PrintSource → Dict String PrintSource → Sources
given_to none p sources = (some p, sources, some p)
given_to (some key) p sources =
    if not (key == "") && not (key == p.job_key)
    then (some (copied key p), Dict.insert key (copied key p) sources, none)
    else (some p, sources, some p)

-- A job without a source takes the one that waits, unless its print is over.
unfoldable pub take_pending :
    Option String
    → String
    → Option PrintSource
    → Option PrintSource
    → Dict String PrintSource
    → Sources
take_pending key state (some s) pending sources = (some s, sources, pending)
take_pending key state none none sources = (none, sources, none)
take_pending key state none (some p) sources =
    if is_terminal state then (none, sources, some p) else given_to key p sources

-- `url.split(":", 1)[0]`.
unfoldable pub before_colon : String → String
before_colon String.[] = ""
before_colon (String.◌∷◌ c s) =
    let rest = before_colon s in if String.◌∷◌ c "" == ":" then "" else String.◌∷◌ c rest

abbrev url_source : String → String → PrintSource
url_source key url =
    let scheme = lower (before_colon url) in
    record {
      job_key = key;
      kind = if scheme == "http" || scheme == "https" then http else printer_ftps;
      filename = path_name url;
      data_bytes = none;
      path = "";
      url = url;
      reason = "";
      plate_id = pos 1;
      ams_mapping = none;
    }

-- Or else the file that the printer reports.
unfoldable pub take_reported : Option String → String → Sources → Sources
take_reported key url (some s, sources, pending) = (some s, sources, pending)
take_reported none url (none, sources, pending) = (none, sources, pending)
take_reported (some key) url (none, sources, pending) =
    if key == "" || url == ""
    then (none, sources, pending)
    else (some (url_source key url), Dict.insert key (url_source key url) sources, pending)

unfoldable pub state_in : Library → Fields → String
state_in py raw =
    let state = upper (field_text py "gcode_state" raw) in if state == "" then "IDLE" else state

abbrev key_text : Option String → String
key_text none = ""
key_text (some k) = k

unfoldable pub find_source : Library → Option String → Broker → Sources
find_source py key b =
    let state = state_in py b.raw in
    let source = Dict.lookup (key_text key) b.sources in
    take_reported key (reported_url py.str_of b.raw)
      (take_pending key state source (release_pending state source b.pending_source) b.sources)

abbrev entry_ints : List Json → List ℤ
entry_ints [] = []
entry_ints (j ∷ js) = integer (negsuc 0) (some j) ∷ entry_ints js

abbrev mapping_in : Option Json → List ℤ → List ℤ
mapping_in (some (arr js)) old = entry_ints (elements js)
mapping_in _ old = old

abbrev source_mapping : Option PrintSource → List ℤ
source_mapping none = []
source_mapping (some s) = list_or_empty s.ams_mapping

abbrev mapping_or : List ℤ → List ℤ → List ℤ
mapping_or [] other = other
mapping_or (n ∷ ns) other = n ∷ ns

abbrev no_source : String → String → SourceStatus
no_source name url = record {
  available = false;
  kind = none;
  filename = text_option name;
  url = text_option url;
  reason = some "Printer did not report a retrievable 3MF source";
}

abbrev pub on_printer : PrintSource → Bool
on_printer s = elim s.kind [ printer_ftps ↦ true | _ ↦ false ]

-- Without the printer's credentials its files are out of reach.
unfoldable pub status_with : Bool → String → String → Option PrintSource → SourceStatus
status_with reachable name url none = no_source name url
status_with reachable name url (some s) =
    if on_printer s && not reachable
    then record (source_status s) {
      available = false;
      reason = some "Printer FTPS credentials are unavailable";
    }
    else source_status s

abbrev title_in : Library → Option Fields → String
title_in py none = ""
title_in py (some fs) = field_text py "title" fs

abbrev filename_of : Option PrintSource → Option String
filename_of none = none
filename_of (some s) = some s.filename

abbrev named_or : String → Option String → Option String
named_or s other = if s == "" then other else some s

abbrev entry_of : Option PrintSource → Option String
entry_of none = none
entry_of (some s) = some ("Metadata/plate_" <> show_int s.plate_id <> ".gcode")

abbrev filled_usage : Option Fields → Option Fields
filled_usage (some (field k j fs)) = some (field k j fs)
filled_usage _ = none

abbrev preferred_or :
    Option String
    → Option String × Option String
    → Option String × Option String
    → Option String × Option String
preferred_or none derived kept = derived
preferred_or (some k) derived kept = if k == "" then derived else kept

-- The key of the snapshot, and the active job key: `preferred` leaves that one alone.
unfoldable pub choose_key : Library → Option String → Broker → Option String × Option String
choose_key py preferred b =
    preferred_or preferred (derive_job_key py b) (preferred, b.active_job_key)

unfoldable pub snapshot_of : Library → ℕ → Option String → Option PrintSource → Broker → Snapshot
snapshot_of py now key source b =
    let name = name_in py b.raw in
    let usage = filled_usage (Dict.lookup (key_text key) b.usage_references) in
    record {
      sequence = b.sequence + 1;
      printer_id = b.printer_id;
      job_key = key;
      task_id = text_option (field_text py "task_id" b.raw);
      subtask_id = text_option (field_text py "subtask_id" b.raw);
      job_name = named_or name (named_or (title_in py usage) (filename_of source));
      state = state_in py b.raw;
      current_layer = integer (pos 0) (member "layer_num" b.raw);
      total_layers = integer (pos 0) (member "total_layer_num" b.raw);
      gcode_entry =
          named_or (text py.str_of (either_of (member "param" b.raw) (member "gcode_entry" b.raw)))
            (entry_of source);
      ams_mapping =
          mapping_or (mapping_in (member "ams_mapping" b.raw) b.snapshot.ams_mapping)
            (source_mapping source);
      active_tray = active_tray b.raw b.snapshot.active_tray;
      usage_reference = usage;
      source = status_with b.printer_file_available name (reported_url py.str_of b.raw) source;
      updated_at = some now;
    }

unfoldable pub build_snapshot : Library → ℕ → Option String → Broker → Broker
build_snapshot py now preferred b =
    let (key, active) = choose_key py preferred b in
    let (source, sources, pending) = find_source py key b in
    record b {
      sources = sources;
      pending_source = pending;
      active_job_key = active;
      sequence = b.sequence + 1;
      snapshot = snapshot_of py now key source b;
    }
