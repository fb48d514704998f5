-- ===== src/SliceJobs/Run/Print.antt =====
-- `_is_printer_idle` and `_auto_print` of app/slice_jobs.py.
use bambu_gateway.Prelude.{
  ℕ, ◌+◌, ◌*◌, ◌/◌, min, String, Bool, true, false, not, Option, none, some, List, [], ◌∷◌,
  if◌then◌else◌, leb, is_in, ◌==◌, string_eq, nat_beq,
}
use bambu_gateway.Printer.{PrinterStatus}
use bambu_gateway.Filament.Validation.{
  AmsInfo, passes, unavailable, raises, validate_selected_trays,
}
use bambu_gateway.SliceJobs.{uploading, ready, cancelled, cloud_failed, upload_failed, tray}
use bambu_gateway.SliceJobs.Run.Effects.{
  World, Written, wrote, unwritten, store, set_status, then_notify, fail, at, kind_ready,
  kind_printing,
}
use bambu_gateway.SliceJobs.Run.Loop.{write_interval_ms}

-- `getattr(status, "gcode_state", "IDLE")`: `PrinterStatus` has no such field.
unfoldable pub gcode_state_of : PrinterStatus → String
gcode_state_of status = "IDLE"

abbrev pub printer_busy_states : List String
printer_busy_states = "RUNNING" ∷ "PAUSE" ∷ "PREPARE" ∷ []

unfoldable pub is_printer_idle : String → Option PrinterStatus → Bool
is_printer_idle printer_id none = false
is_printer_idle printer_id (some status) =
    if printer_id == ""
    then false
    else if status.online
    then not (is_in (gcode_state_of status) printer_busy_states)
    else false

-- `run_cloud_print`: no error, the message of its error frame, or an exception.
pub data CloudReply : Type 0 where
  submitted : CloudReply
  refused cloud_raised : String → CloudReply

-- The FTP upload, in its thread: done, stopped by the callback, or an exception.
pub data UploadEnd : Type 0 where
  uploaded upload_cancelled : UploadEnd
  upload_raised : String → UploadEnd

-- The polls while the upload runs: a time, and the bytes sent by then.
pub record Target : Type 0 where
  pub ams : Option AmsInfo
  pub cloud : Option CloudReply
  pub polls : List (ℕ × ℕ)
  pub upload_end : UploadEnd
  pub ended_at : ℕ

-- A run ends, or leaves `_run_job` by an exception that its worker logs.
pub data RunEnd : Type 0 where
  ended crashed : World → RunEnd

abbrev pub run_end : Written → RunEnd
run_end (wrote w) = ended w
run_end (unwritten e w) = crashed w

unfoldable pub printed_ready : World → Written
printed_ready w = then_notify kind_printing (
    set_status ready none
      (record w { job = record (w.job) { progress = 100; phase = none; printed = true } }))

-- The degraded end of an automatic print.
unfoldable pub ready_only : World → Written
ready_only w = then_notify kind_ready (set_status ready none w)

abbrev pub upload_percent : ℕ → ℕ → ℕ → ℕ
upload_percent total sent old = if nat_beq total 0 then old else min 99 (sent * 100 / total)

abbrev pub polled : ℕ → ℕ → ℕ → World → World
polled total t sent w = record w {
  now = t;
  job = record (w.job) { progress = upload_percent total sent w.job.progress };
}

abbrev pub due : ℕ → World → Bool
due last_write w = leb (last_write + write_interval_ms) w.now

-- One poll, with the time of the last write after it.
unfoldable pub poll : ℕ → ℕ → ℕ → ℕ → World → Written × ℕ
poll total t sent last_write w =
    let w' = polled total t sent w in
    if due last_write w' then (store w', t) else (wrote w', last_write)

unfoldable pub polling : ℕ → List (ℕ × ℕ) → ℕ → World → Written
polling total [] last_write w = wrote w
polling total ((t, sent) ∷ polls) last_write w =
    let (r, last) = poll total t sent last_write w in
    elim r [ wrote w' ↦ polling total polls last w' | unwritten e w' ↦ unwritten e w' ]

unfoldable pub upload_done : UploadEnd → World → Written
upload_done uploaded w = printed_ready w
upload_done upload_cancelled w = set_status cancelled none w
upload_done (upload_raised e) w = fail (upload_failed e) w

unfoldable pub cloud_done : CloudReply → World → Written
cloud_done submitted w = printed_ready w
cloud_done (refused msg) w = fail (cloud_failed msg) w
cloud_done (cloud_raised e) w = fail (cloud_failed e) w

-- A poll whose write raises ends as a failed upload, whose thread runs on.
abbrev pub after_polls : Target → Written → Written
after_polls target (wrote w) = upload_done target.upload_end (at target.ended_at w)
after_polls target (unwritten e w) = fail (upload_failed e) w

abbrev pub send_started : ℕ → Target → Written → Written
send_started total target (unwritten e w) = unwritten e w
send_started total target (wrote w) = elim target.cloud [
  | some reply ↦ cloud_done reply (at target.ended_at w)
  | none ↦ after_polls target (polling total target.polls 0 w)
]

unfoldable pub send : ℕ → Target → World → Written
send total target w = send_started total target (set_status uploading (some "uploading") w)

unfoldable pub auto_print : ℕ → Target → World → RunEnd
auto_print total target w = elim (validate_selected_trays w.job.filament_profiles target.ams) [
  | passes ↦ run_end (send total target w)
  | unavailable slot ↦
      run_end (ready_only (record w { job = record (w.job) { error = some (tray slot) } }))
  | raises ↦ crashed w
]
