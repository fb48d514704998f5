-- ===== src/SliceJobs/Run/Outcome.antt =====
-- Where a run ends: its last record, what it sent, and the ends by an exception.
use mathlib.Core.Path.{subst}
use bambu_gateway.Prelude.{
  ℕ, ◌≡◌, refl, ◌≤◌, Bool, false, Option, none, some, [], if◌then◌else◌, arith, if_both, length,
  ◌==◌, string_eq,
}
use bambu_gateway.Filament.Validation.{
  TrayCheck, passes, unavailable, raises, validate_selected_trays,
}
use bambu_gateway.SliceJobs.{
  SliceJobStatus, queued, slicing, uploading, cancelled, is_terminal, SliceJob, no_output, tray,
  cloud_failed, upload_failed, slicing_failed,
}
use bambu_gateway.SliceJobs.Run.{
  Inputs, with_result, printer_or_empty, finish, or_fail, after_loop, loop_start, slice_started,
  run_job,
}
use bambu_gateway.SliceJobs.Run.Effects.{World, Written, wrote, unwritten, set_status, fail, at}
use bambu_gateway.SliceJobs.Run.Loop.{
  Sliced, LoopEnd, loop_cancelled, loop_failed, loop_stopped, loop,
}
use bambu_gateway.SliceJobs.Run.Print.{
  Target, RunEnd, ended, crashed, run_end, CloudReply, submitted, refused, cloud_raised, UploadEnd,
  uploaded, upload_cancelled, upload_raised, is_printer_idle, ready_only, after_polls, send_started,
  send, auto_print, polling, upload_done, cloud_done,
}
use bambu_gateway.SliceJobs.Run.Steps.{
  pick, drop, send_on, finish_slice, fail_slice, stop_slice, finish_print, fail_upload, stop_upload,
  Trail, nothing, On, Behind, On-Behind, Done, edit-On, at-On,
}
use bambu_gateway.SliceJobs.Run.Writes.{
  Stays, Goes, Ends, set_status-Goes, set_status-cancelled, fail-Ends, ready_only-Ends,
  printed_ready-Ends,
}
use bambu_gateway.SliceJobs.Run.Looping.{polling-Stays, loop-On, LoopEnd-On}

-- A run ends with its job settled, or is left with a record of a status that is not terminal.
abbrev Settled : RunEnd → Type 0
Settled (ended w) = Done w
Settled (crashed w) = (s : SliceJobStatus) × Behind s w

run_end-Settled : (s : SliceJobStatus) (r : Written) → Ends s r → Settled (run_end r)
run_end-Settled s (wrote w) h = h
run_end-Settled s (unwritten e w) h = (s, h)

upload_done-Ends : (u : UploadEnd) (w : World) → On uploading w → Ends uploading (upload_done u w)
unfolding upload_done
upload_done-Ends uploaded w h = printed_ready-Ends w h finish_print
upload_done-Ends upload_cancelled w h = set_status-cancelled w h stop_upload
upload_done-Ends (upload_raised e) w h =
    fail-Ends w (upload_failed e) (On-Behind w h fail_upload) fail_upload

cloud_done-Ends : (r : CloudReply) (w : World) → On uploading w → Ends uploading (cloud_done r w)
unfolding cloud_done
cloud_done-Ends submitted w h = printed_ready-Ends w h finish_print
cloud_done-Ends (refused msg) w h =
    fail-Ends w (cloud_failed msg) (On-Behind w h fail_upload) fail_upload
cloud_done-Ends (cloud_raised e) w h =
    fail-Ends w (cloud_failed e) (On-Behind w h fail_upload) fail_upload

after_polls-Ends :
    (target : Target) (r : Written) → Stays uploading r → Ends uploading (after_polls target r)
after_polls-Ends target (wrote w) h =
    upload_done-Ends target.upload_end _ (at-On w h target.ended_at)
after_polls-Ends target (unwritten e w) h =
    fail-Ends w (upload_failed e) (On-Behind w h fail_upload) fail_upload

-- Ended, or left by a write, with one of two statuses written last.
send_started-Settled :
    (total : ℕ) (target : Target) (r : Written)
    → Goes slicing uploading r
    → Settled (run_end (send_started total target r))
send_started-Settled total target (unwritten e w) h = (slicing, h)
send_started-Settled total target (wrote w) h = go target.cloud
  where
    go :
        (c : Option CloudReply)
        → Settled (
            run_end (elim c [
              | some reply ↦ cloud_done reply (at target.ended_at w)
              | none ↦ after_polls target (polling total target.polls 0 w)
            ]))
    go (some reply) = run_end-Settled _ _ (cloud_done-Ends reply _ (at-On w h target.ended_at))
    go none = run_end-Settled _ _ (
        after_polls-Ends target (polling total target.polls 0 w)
          (polling-Stays total target.polls 0 w h))

send-Settled :
    (total : ℕ) (target : Target) (w : World)
    → On slicing w
    → Settled (run_end (send total target w))
unfolding send
send-Settled total target w h =
    send_started-Settled total target _ (set_status-Goes w h uploading (some "uploading") send_on)

auto_print-Settled :
    (total : ℕ) (target : Target) (w : World) → On slicing w → Settled (auto_print total target w)
unfolding auto_print
auto_print-Settled total target w h =
    go (validate_selected_trays w.job.filament_profiles target.ams)
  where
    go :
        (c : TrayCheck)
        → Settled (elim c [
          | passes ↦ run_end (send total target w)
          | unavailable slot ↦
              run_end (ready_only (record w { job = record (w.job) { error = some (tray slot) } }))
          | raises ↦ crashed w
        ])
    go passes = send-Settled total target w h
    go (unavailable slot) =
        run_end-Settled _ _ (ready_only-Ends _ (edit-On w h _ refl h.bounded refl) finish_slice)
    go raises = (slicing, On-Behind w h fail_slice)

finish-Settled : (i : Inputs) (s : Sliced) (w : World) → On slicing w → Settled (finish i s w)
unfolding finish
finish-Settled i s w h =
    let degraded = run_end-Settled _ _ (ready_only-Ends w h finish_slice) in
    if_both Settled w.job.auto_print
      (if_both Settled (printer_or_empty w.job.printer_id == "") degraded (
        if_both Settled (is_printer_idle (printer_or_empty w.job.printer_id) i.status)
          (auto_print-Settled (length s.bytes) i.target w h) degraded))
      degraded

or_fail-Settled : (r : Written) → Ends slicing r → Settled (or_fail r)
or_fail-Settled (wrote w) h = h
or_fail-Settled (unwritten e w) h =
    run_end-Settled _ _ (fail-Ends w (slicing_failed e) h fail_slice)

after_loop-Settled : (i : Inputs) (l : LoopEnd) → LoopEnd-On l → Settled (after_loop i l)
unfolding after_loop
after_loop-Settled i (loop_cancelled w) h =
    or_fail-Settled (set_status cancelled none w) (set_status-cancelled w h stop_slice)
after_loop-Settled i (loop_failed message w) h =
    run_end-Settled _ _ (fail-Ends w message (On-Behind w h fail_slice) fail_slice)
after_loop-Settled i (loop_stopped l) h = go l.sliced
  where
    go :
        (s : Option Sliced)
        → Settled (elim s [
          | none ↦ run_end (fail (no_output l.events_seen) l.world)
          | some s ↦
              if i.output_writable then finish i s (with_result i s l.world) else crashed l.world
        ])
    go none =
        run_end-Settled _ _
          (fail-Ends l.world (no_output l.events_seen) (On-Behind l.world h fail_slice) fail_slice)
    go (some s) =
        if_both Settled i.output_writable
          (finish-Settled i s _ (edit-On l.world h _ refl (omega arith) refl))
          (slicing, On-Behind l.world h fail_slice)

slice_started-Settled :
    (i : Inputs) (r : Written) → Goes queued slicing r → Settled (slice_started i r)
slice_started-Settled i (unwritten e w) h = (queued, h)
slice_started-Settled i (wrote w) h =
    if_both Settled i.input_readable
      (after_loop-Settled i (loop i.rounds (loop_start w)) (loop-On i.rounds (loop_start w) h))
      (slicing, On-Behind w h fail_slice)

-- A run at its start.
abbrev pub fresh : SliceJob → Bool → World
fresh job has_notifier = record {
  job = job;
  stored = [];
  sent = [];
  has_notifier = has_notifier;
  now = 0;
  writes = [];
}

-- A job as it waits in the queue.
pub record Waiting (job : SliceJob) : Type 0 where
  pub queue : job.status ≡ queued
  pub bounded : job.progress ≤ 100
  pub unprinted : job.printed ≡ false

module _ (i : Inputs) (job : SliceJob) (has_notifier : Bool) (h : Waiting job) where
  fresh-On : On queued (record (fresh job has_notifier) { now = i.picked_at; writes = i.writes })
  fresh-On = record {
    status = h.queue;
    trail = nothing;
    bounded = h.bounded;
    quiet = refl;
    unprinted = h.unprinted;
  }

  run_job-Settled : Settled (run_job i (fresh job has_notifier))
  unfolding run_job
  run_job-Settled =
      if_both Settled i.cancel_set (run_end-Settled _ _ (set_status-cancelled _ fresh-On drop))
        (slice_started-Settled i _ (set_status-Goes _ fresh-On slicing (some "slicing") pick))

abbrev pub world_of : RunEnd → World
world_of (ended w) = w
world_of (crashed w) = w

-- The status last written: that of the job when the run has ended.
abbrev pub Traced : RunEnd → Type 0
Traced (ended w) = Trail w.stored w.job.status
Traced (crashed w) = (s : SliceJobStatus) × Trail w.stored s

Settled-Traced : (r : RunEnd) → Settled r → Traced r
Settled-Traced (ended w) d = d.trail
Settled-Traced (crashed w) (s, h) = (s, h.trail)

-- Whatever its awaits return, the run of a waiting job stores records whose statuses follow the
-- moves from queued on, each with a progress of at most 100, the last with the job's status unless
-- the run is left by an exception.
pub run_job-Trail :
    (i : Inputs) (job : SliceJob) (has_notifier : Bool)
    → Waiting job
    → Traced (run_job i (fresh job has_notifier))
run_job-Trail i job has_notifier h =
    Settled-Traced (run_job i (fresh job has_notifier)) (run_job-Settled i job has_notifier h)

-- A run of a waiting job that ends leaves it in a terminal status, its newest record is the job, and
-- it notifies once: of the print when it was sent, of a ready or a failed job, and never when the
-- job was cancelled or there is no notifier.
pub run_job-Done :
    (i : Inputs) (job : SliceJob) (has_notifier : Bool) (w : World)
    → Waiting job
    → run_job i (fresh job has_notifier) ≡ ended w
    → Done w
run_job-Done i job has_notifier w h e =
    subst (λ r. Settled r) e (run_job-Settled i job has_notifier h)

-- A run of a waiting job that is left by an exception, one of the store's writes included, has
-- stored records by the moves from queued on, of which the last, if there is one, is not in a
-- terminal status, and has sent no notification.
pub run_job-crashed :
    (i : Inputs) (job : SliceJob) (has_notifier : Bool) (w : World)
    → Waiting job
    → run_job i (fresh job has_notifier) ≡ crashed w
    → ((s : SliceJobStatus) × Trail w.stored s × (is_terminal s ≡ false)) × (w.sent ≡ [])
run_job-crashed i job has_notifier w h e =
    let (s, behind) = subst (λ r. Settled r) e (run_job-Settled i job has_notifier h) in
    ((s, behind.trail, behind.active), behind.quiet)
