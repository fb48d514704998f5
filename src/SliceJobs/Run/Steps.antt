-- ===== src/SliceJobs/Run/Steps.antt =====
-- The statuses that a run stores, one after another.
use mathlib.Core.Path.{subst}
use bambu_gateway.Prelude.{
  ℕ, ◌≡◌, refl, sym, ap, ◌∙◌, ◌≤◌, true, false, List, [], ◌∷◌, if◌then◌else◌, arith,
}
use bambu_gateway.SliceJobs.{
  SliceJobStatus, queued, slicing, uploading, ready, failed, cancelled, is_terminal, SliceJob,
}
use bambu_gateway.SliceJobs.Run.Effects.{
  World, Kind, kind_ready, kind_printing, kind_failed, notify,
}

-- From one stored status to the next.
pub data Moves : SliceJobStatus → SliceJobStatus → Type 0 where
  pick : Moves queued slicing
  drop : Moves queued cancelled
  slice_on : Moves slicing slicing
  send_on : Moves slicing uploading
  finish_slice : Moves slicing ready
  fail_slice : Moves slicing failed
  stop_slice : Moves slicing cancelled
  upload_on : Moves uploading uploading
  finish_print : Moves uploading ready
  fail_upload : Moves uploading failed
  stop_upload : Moves uploading cancelled

-- Records written one after another, the newest first, from a queued job on, each with its progress
-- in percent; the index is the status of the newest.
pub data Trail : List SliceJob → SliceJobStatus → Type 0 where
  nothing : Trail [] queued
  written :
      (job : SliceJob) (older : List SliceJob) {s : SliceJobStatus}
      → Trail older s
      → Moves s job.status
      → job.progress ≤ 100
      → Trail (job ∷ older) job.status

-- In the course of a run, with `s` as the status last written.
pub record On (s : SliceJobStatus) (w : World) : Type 0 where
  pub status : w.job.status ≡ s
  pub trail : Trail w.stored s
  pub bounded : w.job.progress ≤ 100
  pub quiet : w.sent ≡ []
  pub unprinted : w.job.printed ≡ false

-- Where a write that raises leaves a run: `s` is the status last written.
pub record Behind (s : SliceJobStatus) (w : World) : Type 0 where
  pub trail : Trail w.stored s
  pub bounded : w.job.progress ≤ 100
  pub quiet : w.sent ≡ []
  pub active : is_terminal s ≡ false

pub Moves-is_terminal : {s t : SliceJobStatus} → Moves s t → is_terminal s ≡ false
unfolding is_terminal
Moves-is_terminal pick = refl
Moves-is_terminal drop = refl
Moves-is_terminal slice_on = refl
Moves-is_terminal send_on = refl
Moves-is_terminal finish_slice = refl
Moves-is_terminal fail_slice = refl
Moves-is_terminal stop_slice = refl
Moves-is_terminal upload_on = refl
Moves-is_terminal finish_print = refl
Moves-is_terminal fail_upload = refl
Moves-is_terminal stop_upload = refl

pub On-Behind : {s t : SliceJobStatus} (w : World) → On s w → Moves s t → Behind s w
On-Behind w h m = record {
  trail = h.trail;
  bounded = h.bounded;
  quiet = h.quiet;
  active = Moves-is_terminal m;
}

-- What is sent at the end of a run.
unfoldable pub report : SliceJob → List Kind
report job = elim job.status [
  | queued ↦ []
  | slicing ↦ []
  | uploading ↦ []
  | ready ↦ if job.printed then kind_printing ∷ [] else kind_ready ∷ []
  | failed ↦ kind_failed ∷ []
  | cancelled ↦ []
]

pub record Done (w : World) : Type 0 where
  pub terminal : is_terminal w.job.status ≡ true
  pub trail : Trail w.stored w.job.status
  pub newest : (older : List SliceJob) × (w.stored ≡ w.job ∷ older)
  pub reported : w.sent ≡ (if w.has_notifier then report w.job else [])

pub written_as :
    (job : SliceJob) (older : List SliceJob) {s t : SliceJobStatus}
    → Trail older s
    → Moves s t
    → job.status ≡ t
    → job.progress ≤ 100
    → Trail (job ∷ older) t
written_as job older {s} trail m e p =
    subst (λ x. Trail (job ∷ older) x) e
      (written job older trail (subst (λ x. Moves s x) (sym e) m) p)

module _ (kind : Kind) (w : World) where
  pub notify_job : (notify kind w).job ≡ w.job
  unfolding notify
  notify_job = ground arith

  notify_stored : (notify kind w).stored ≡ w.stored
  unfolding notify
  notify_stored = ground arith

  notify_sent :
      w.sent ≡ []
      → report w.job ≡ kind ∷ []
      → (notify kind w).sent
        ≡ (if (notify kind w).has_notifier then report (notify kind w).job else [])
  unfolding notify
  notify_sent quiet r = ground (arith, quiet, r)

  -- The newest record is the job, and nothing has been sent so far.
  pub notify-Done :
      (older : List SliceJob)
      → w.stored ≡ w.job ∷ older
      → is_terminal w.job.status ≡ true
      → Trail w.stored w.job.status
      → w.sent ≡ []
      → report w.job ≡ kind ∷ []
      → Done (notify kind w)
  notify-Done older e terminal trail quiet r = record {
    terminal = rw notify_job terminal;
    trail = rw (notify_stored, notify_job) trail;
    newest = (older, notify_stored ∙ e ∙ ap (λ j. j ∷ older) (sym notify_job));
    reported = notify_sent quiet r;
  }

module _ {s : SliceJobStatus} (w : World) (h : On s w) where
  -- A change of other fields.
  pub edit-On :
      (job : SliceJob)
      → job.status ≡ w.job.status
      → job.progress ≤ 100
      → job.printed ≡ w.job.printed
      → On s (record w { job = job })
  edit-On job e p q = record {
    status = e ∙ h.status;
    trail = h.trail;
    bounded = p;
    quiet = h.quiet;
    unprinted = q ∙ h.unprinted;
  }

  pub at-On : (t : ℕ) → On s (record w { now = t })
  at-On t = record {
    status = h.status;
    trail = h.trail;
    bounded = h.bounded;
    quiet = h.quiet;
    unprinted = h.unprinted;
  }
