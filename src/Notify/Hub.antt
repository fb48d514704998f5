-- ===== src/Notify/Hub.antt =====
-- The filters of `NotificationHub` in app/notification_hub.py, with the queue that feeds them.
-- Times are milliseconds of the monotonic clock. A fingerprint is kept as its parts: the text that
-- the code builds from them differs where the parts do.
pub mod Fingerprints
pub mod Spacing
mod Tests
use text.Mathlib.TextEquality.{eq_iff}
use bambu_gateway.Prelude.{
  ℕ, ◌+◌, ◌≡◌, refl, ap, ◌↔◌, arith, String, Bool, true, false, ◌&&◌, Option, none, some, List, [],
  ◌∷◌, ◌++◌, Eq, discrete_eq, is_in, ltb, if◌then◌else◌, ◌==◌, string_eq, pair_eq,
}
use bambu_gateway.Prelude.Int.{ℤ, int_eq, int_beq_iff}
use bambu_gateway.Prelude.Dict
use bambu_gateway.Prelude.Dict.{Dict}
use bambu_gateway.Printer.{PrintJob, PrinterStatus}
use bambu_gateway.Notify.Detect.{
  EventType, event_eq, NotificationEvent, detect_events, print_started, print_paused, print_resumed,
  print_finished, print_cancelled, print_failed, progress_tick,
}

-- `absent` is the empty text, `start t` is "start:t", `by_name f n` is "name:f|layers:n".
pub data Fingerprint : Type 0 where
  absent : Fingerprint
  start : String → Fingerprint
  by_name : String → ℤ → Fingerprint

abbrev pub fingerprint_beq : Fingerprint → Fingerprint → Bool
fingerprint_beq absent absent = true
fingerprint_beq (start a) (start b) = a == b
fingerprint_beq (by_name a m) (by_name b n) = a == b && m == n
fingerprint_beq _ _ = false

pub fingerprint_beq_iff : (a b : Fingerprint) → (fingerprint_beq a b ≡ true) ↔ (a ≡ b)
fingerprint_beq_iff absent absent = (λ h. refl, λ h. refl)
fingerprint_beq_iff (start a) (start b) =
    (λ h. ground (arith, eq_iff a b), λ h. ground (arith, eq_iff a b))
fingerprint_beq_iff (by_name a m) (by_name b n) = (
  λ h. ground (arith, eq_iff a b, int_beq_iff m n),
  λ h. ground (arith, eq_iff a b, int_beq_iff m n),
)
fingerprint_beq_iff absent (start b) = (λ h. cc, λ h. cc)
fingerprint_beq_iff absent (by_name b n) = (λ h. cc, λ h. cc)
fingerprint_beq_iff (start a) absent = (λ h. cc, λ h. cc)
fingerprint_beq_iff (start a) (by_name b n) = (λ h. cc, λ h. cc)
fingerprint_beq_iff (by_name a m) absent = (λ h. cc, λ h. cc)
fingerprint_beq_iff (by_name a m) (start b) = (λ h. cc, λ h. cc)

instance abbrev pub fingerprint_eq : Eq Fingerprint
fingerprint_eq = record { eqb = fingerprint_beq; eqb_iff = fingerprint_beq_iff }

abbrev fingerprint_of : Option PrintJob → Fingerprint
fingerprint_of none = absent
fingerprint_of (some job) =
    if job.gcode_start_time == ""
    then by_name job.file_name job.total_layers
    else start job.gcode_start_time

unfoldable pub job_fingerprint : PrinterStatus → Fingerprint
job_fingerprint status = fingerprint_of status.job

abbrev pub dedupe_ms : ℕ
dedupe_ms = 30000

abbrev pub progress_throttle_ms : ℕ
progress_throttle_ms = 10000

abbrev pub transition_event_types : List EventType
transition_event_types =
    print_started ∷ print_paused ∷ print_resumed ∷ print_finished ∷ print_cancelled ∷ print_failed
    ∷ []

-- The part of a deduplication key behind the event's type: `hms_code or fingerprint`.
pub data Suffix : Type 0 where
  hms : String → Suffix
  print : Fingerprint → Suffix

abbrev pub suffix_beq : Suffix → Suffix → Bool
suffix_beq (hms a) (hms b) = a == b
suffix_beq (print a) (print b) = a == b
suffix_beq _ _ = false

pub suffix_beq_iff : (a b : Suffix) → (suffix_beq a b ≡ true) ↔ (a ≡ b)
suffix_beq_iff (hms a) (hms b) = (λ h. ground (arith, eq_iff a b), λ h. ground (arith, eq_iff a b))
suffix_beq_iff (print a) (print b) =
    (λ h. ap print ((fingerprint_beq_iff a b).0 h), λ h. (fingerprint_beq_iff a b).1 (cc))
suffix_beq_iff (hms a) (print b) = (λ h. cc, λ h. cc)
suffix_beq_iff (print a) (hms b) = (λ h. cc, λ h. cc)

instance abbrev pub suffix_eq : Eq Suffix
suffix_eq = record { eqb = suffix_beq; eqb_iff = suffix_beq_iff }

abbrev pub Key : Type 0
Key = String × (EventType × Suffix)

pub record Hub : Type 0 where
  pub dedupe : Dict Key ℕ
  pub last_progress : Dict String ℕ
  pub last_fired_fingerprint : Dict String (Dict EventType Fingerprint)
  pub seen_printers : List String
  pub queue : List NotificationEvent

abbrev pub new_hub : Hub
new_hub = record {
  dedupe = [];
  last_progress = [];
  last_fired_fingerprint = [];
  seen_printers = [];
  queue = [];
}

-- Called on the MQTT thread. The first snapshot of a printer causes no event.
unfoldable pub on_status_change : PrinterStatus → PrinterStatus → Hub → Hub
on_status_change prev new h =
    if is_in new.id h.seen_printers
    then record h { queue = h.queue ++ detect_events prev new }
    else record h { seen_printers = new.id ∷ h.seen_printers }

-- `setdefault(printer_id, {})`.
abbrev pub or_empty {ℓ κ} : {K : Type ℓ} {V : Type κ} → Option (Dict K V) → Dict K V
or_empty none = []
or_empty (some m) = m

abbrev pub fired : NotificationEvent → Hub → Dict EventType Fingerprint
fired event h = or_empty (Dict.lookup event.printer_id h.last_fired_fingerprint)

abbrev pub matches : Fingerprint → Option Fingerprint → Bool
matches f none = false
matches f (some g) = g == f

unfoldable pub is_fingerprint_duplicate : NotificationEvent → Hub → Bool × Hub
is_fingerprint_duplicate event h =
    let fingerprint = job_fingerprint event.snapshot in
    let per_printer = fired event h in
    if is_in event.event_type transition_event_types
    then if fingerprint == absent
      then (false, h)
      else if matches fingerprint (Dict.lookup event.event_type per_printer)
      then (
        true,
        record h {
          last_fired_fingerprint =
              Dict.insert event.printer_id per_printer h.last_fired_fingerprint;
        },
      )
      else (
        false,
        record h {
          last_fired_fingerprint =
              Dict.insert event.printer_id (Dict.insert event.event_type fingerprint per_printer)
                h.last_fired_fingerprint;
        },
      )
    else (false, h)

abbrev pub event_key : NotificationEvent → Key
event_key event = (
  event.printer_id,
  (
    event.event_type,
    (if event.hms_code == "" then print (job_fingerprint event.snapshot) else hms event.hms_code),
  ),
)

-- Keys that have run out are dropped first, for every event.
abbrev pub unexpired : ℕ → Dict Key ℕ → Dict Key ℕ
unexpired now = Dict.retain (λ ts. if ltb (ts + dedupe_ms) now then false else true)

abbrev pub has {ℓ} : {A : Type ℓ} → Option A → Bool
has none = false
has (some _) = true

unfoldable pub is_deduped : ℕ → NotificationEvent → Hub → Bool × Hub
is_deduped now event h =
    let kept = unexpired now h.dedupe in
    if event.event_type == progress_tick
    then (false, record h { dedupe = kept })
    else if has (Dict.lookup (event_key event) kept)
    then (true, record h { dedupe = kept })
    else (false, record h { dedupe = Dict.insert (event_key event) now kept })

abbrev pub or_zero : Option ℕ → ℕ
or_zero none = 0
or_zero (some t) = t

unfoldable pub is_throttled : ℕ → NotificationEvent → Hub → Bool × Hub
is_throttled now event h =
    if ltb now (or_zero (Dict.lookup event.printer_id h.last_progress) + progress_throttle_ms)
    then (true, h)
    else (false, record h { last_progress = Dict.insert event.printer_id now h.last_progress })

-- What `_handle` goes on to: nothing, a Live Activity update, or `_dispatch_event`.
pub data Action : Type 0 where
  dropped update dispatch : Action

abbrev pub throttle : ℕ → NotificationEvent → Hub → Action × Hub
throttle now event h =
    let (throttled, h') = is_throttled now event h in ((if throttled then dropped else update), h')

abbrev pub filter_rest : ℕ → NotificationEvent → Bool × Hub → Action × Hub
filter_rest now event (deduped, h) =
    if deduped
    then (dropped, h)
    else if event.event_type == progress_tick
    then throttle now event h
    else (dispatch, h)

-- The clock is read by both filters; `now'` is the second reading.
unfoldable pub handle : ℕ → ℕ → NotificationEvent → Hub → Action × Hub
handle now now' event h =
    let (duplicate, h1) = is_fingerprint_duplicate event h in
    if duplicate then (dropped, h1) else filter_rest now' event (is_deduped now event h1)
