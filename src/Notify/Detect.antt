-- ===== src/Notify/Detect.antt =====
-- `detect_events` of app/notification_hub.py: what changed between two snapshots of a printer.
pub mod Laws
use bambu_gateway.Prelude.{
  ℕ, String, Bool, true, false, not, ◌&&◌, ◌||◌, Option, none, some, List, [], ◌∷◌, ◌++◌, map, Eq,
  discrete_eq, is_in, leb, if◌then◌else◌, ◌==◌, string_eq,
}
use bambu_gateway.Prelude.Int.{ℤ, pos, distance, int_beq}
use bambu_gateway.Printer.{
  PrinterState, printing, paused, preparing, finished, cancelled, error, state_eq, PrintJob,
  HmsCode, PrinterStatus,
}

pub data EventType : Type 0 where
  print_started print_paused print_resumed print_finished print_cancelled print_failed : EventType
  printer_offline_active hms_warning progress_tick : EventType

abbrev pub EventType-discrete : Discrete EventType
EventType-discrete = hlevel

instance abbrev pub event_eq : Eq EventType
event_eq = discrete_eq EventType-discrete

pub record NotificationEvent : Type 0 where
  pub event_type : EventType
  pub printer_id : String
  pub snapshot : PrinterStatus
  pub hms_code : String
  pub prev_snapshot : Option PrinterStatus

-- An event with the defaults of its last two fields.
abbrev pub plain : EventType → PrinterStatus → NotificationEvent
plain t new = record {
  event_type = t;
  printer_id = new.id;
  snapshot = new;
  hms_code = "";
  prev_snapshot = none;
}

abbrev pub active_states : List PrinterState
active_states = printing ∷ paused ∷ preparing ∷ []

unfoldable pub state_transition_event : PrinterState → PrinterState → Option EventType
state_transition_event prev new =
    if new == printing
    then (if prev == paused then some print_resumed else some print_started)
    else if new == paused && prev == printing
    then some print_paused
    else if new == finished
    then some print_finished
    else if new == cancelled
    then some print_cancelled
    else if new == error
    then some print_failed
    else none

abbrev pub no_job : PrintJob
no_job = record {
  file_name = "";
  progress = pos 0;
  remaining_minutes = pos 0;
  current_layer = pos 0;
  total_layers = pos 0;
  gcode_start_time = "";
}

-- A job that is missing counts as one at 0.
abbrev pub job_or_zero : Option PrintJob → PrintJob
job_or_zero none = no_job
job_or_zero (some j) = j

abbrev pub job_moved : PrintJob → PrintJob → Bool
job_moved old new =
    leb 1 (distance new.progress old.progress)
    || (not (int_beq new.current_layer old.current_layer)
        || leb 5 (distance new.remaining_minutes old.remaining_minutes))

unfoldable pub is_progress_tick : PrinterStatus → PrinterStatus → Bool
is_progress_tick prev new = elim new.job [
  | none ↦ false
  | some job ↦ job_moved (job_or_zero prev.job) job
]

abbrev pub attrs : List HmsCode → List String
attrs [] = []
attrs (c ∷ cs) = c.attr ∷ attrs cs

unfoldable pub hms_events : List String → PrinterStatus → List HmsCode → List NotificationEvent
hms_events prev_attrs new [] = []
hms_events prev_attrs new (c ∷ cs) =
    let rest = hms_events prev_attrs new cs in
    if is_in c.attr prev_attrs
    then rest
    else record (plain hms_warning new) { hms_code = c.attr } ∷ rest

abbrev pub transition : PrinterStatus → PrinterStatus → Option EventType → List NotificationEvent
transition prev new none = []
transition prev new (some print_paused) =
    record (plain print_paused new) { prev_snapshot = some prev } ∷ []
transition prev new (some t) = plain t new ∷ []

unfoldable pub transition_events : PrinterStatus → PrinterStatus → List NotificationEvent
transition_events prev new =
    if prev.state == new.state
    then []
    else transition prev new (state_transition_event prev.state new.state)

unfoldable pub offline_events : PrinterStatus → PrinterStatus → List NotificationEvent
offline_events prev new =
    if prev.online && (not new.online && is_in prev.state active_states)
    then plain printer_offline_active new ∷ []
    else []

unfoldable pub tick_events : PrinterStatus → PrinterStatus → List NotificationEvent
tick_events prev new =
    if prev.state == printing
      && (new.state == printing && (new.online && is_progress_tick prev new))
    then plain progress_tick new ∷ []
    else []

abbrev pub or_else : List NotificationEvent → List NotificationEvent → List NotificationEvent
or_else [] ticks = ticks
or_else (e ∷ es) ticks = e ∷ es

unfoldable pub detect_events : PrinterStatus → PrinterStatus → List NotificationEvent
detect_events prev new =
    or_else
      (transition_events prev new
        ++ (offline_events prev new ++ hms_events (attrs prev.hms_codes) new new.hms_codes))
      (tick_events prev new)
