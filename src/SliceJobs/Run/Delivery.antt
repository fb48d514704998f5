-- ===== src/SliceJobs/Run/Delivery.antt =====
-- A slice without errors delivers the last result that the slicer sent.
use bambu_gateway.Prelude.{
  ℕ, ◌≡◌, refl, ap, ◌∙◌, String, Bool, true, false, Option, none, some, List, [], ◌∷◌,
  if◌then◌else◌, length,
}
use bambu_gateway.SliceJobs.{
  SliceJobStatus, slicing, ready, failed, SliceJob, Message, no_output, touch,
}
use bambu_gateway.SliceJobs.Run.{Inputs, with_result, finish, after_loop, loop_start, run_job}
use bambu_gateway.SliceJobs.Run.Effects.{
  World, wrote, put_record, kind_ready, kind_failed, set_status, store, notify, then_notify, fail,
}
use bambu_gateway.SliceJobs.Run.Loop.{
  SlicerEvent, Round, Sliced, LoopState, LoopEnd, loop_stopped, loop,
}
use bambu_gateway.SliceJobs.Run.Print.{RunEnd, ended, crashed, run_end, ready_only}
use bambu_gateway.SliceJobs.Run.Steps.{notify_job}
use bambu_gateway.SliceJobs.Run.Outcome.{fresh}
use bambu_gateway.SliceJobs.Run.Events.{AllPlain, last_result, names, until_done, loop-Stops}

if_true {ℓ} : {A : Type ℓ} (x y : A) (b : Bool) → b ≡ true → (if b then x else y) ≡ x
if_true x y b e = rw e

if_false {ℓ} : {A : Type ℓ} (x y : A) (b : Bool) → b ≡ false → (if b then x else y) ≡ y
if_false x y b e = rw e

-- The world after a write that is done.
abbrev pub recorded : World → World
recorded w = record w { job = touch w.now w.job; stored = touch w.now w.job ∷ w.stored }

store-wrote : (w : World) → w.writes ≡ [] → store w ≡ wrote (recorded w)
unfolding store put_record
store-wrote w f = rw f refl

abbrev in_status : SliceJobStatus → World → World
in_status s w = record w { job = record (w.job) { status = s; phase = none } }

abbrev ready_world : World → World
ready_world w = notify kind_ready (recorded (in_status ready w))

abbrev failed_world : Message → World → World
failed_world m w = notify kind_failed (
    recorded
      (in_status failed (record w { job = record (w.job) { error = some m; phase = none } })))

ready_only-wrote : (w : World) → w.writes ≡ [] → ready_only w ≡ wrote (ready_world w)
unfolding ready_only set_status
ready_only-wrote w f = ap (then_notify kind_ready) (store-wrote (in_status ready w) f)

fail-wrote : (m : Message) (w : World) → w.writes ≡ [] → fail m w ≡ wrote (failed_world m w)
unfolding fail set_status
fail-wrote m w f = ap (then_notify kind_failed) (
    store-wrote
      (in_status failed (record w { job = record (w.job) { error = some m; phase = none } })) f)

module _ (i : Inputs) (job : SliceJob) (has_notifier : Bool) where
  abbrev start : LoopState
  start = loop_start (
      recorded (record (fresh job has_notifier) {
        now = i.picked_at;
        job = record job { status = slicing; phase = some "slicing" };
      }))

  run_job_starts :
      i.cancel_set ≡ false
      → i.writes ≡ []
      → i.input_readable ≡ true
      → run_job i (fresh job has_notifier) ≡ after_loop i (loop i.rounds start)
  unfolding run_job set_status store put_record
  run_job_starts c f r = rw (c, f, r) refl

  start_same : start.world.job.auto_print ≡ job.auto_print
  unfolding touch
  start_same = refl

  finish_ready :
      (s : Sliced) (w : World) → w.job.auto_print ≡ false → finish i s w ≡ run_end (ready_only w)
  unfolding finish
  finish_ready s w a = if_false _ _ w.job.auto_print a

  after_loop-some :
      (l : LoopState) (s : Sliced)
      → l.sliced ≡ some s
      → i.output_writable ≡ true
      → after_loop i (loop_stopped l) ≡ finish i s (with_result i s l.world)
  unfolding after_loop
  after_loop-some l s e o =
      ap
        (λ (x : Option Sliced). elim x as (λ y. RunEnd) [
          | none ↦ run_end (fail (no_output l.events_seen) l.world)
          | some s ↦
              if i.output_writable then finish i s (with_result i s l.world) else crashed l.world
        ])
        e
      ∙ if_true _ _ i.output_writable o

  after_loop-none :
      (l : LoopState)
      → l.sliced ≡ none
      → after_loop i (loop_stopped l) ≡ run_end (fail (no_output l.events_seen) l.world)
  unfolding after_loop
  after_loop-none l e =
      ap
        (λ (x : Option Sliced). elim x as (λ y. RunEnd) [
          | none ↦ run_end (fail (no_output l.events_seen) l.world)
          | some s ↦
              if i.output_writable then finish i s (with_result i s l.world) else crashed l.world
        ])
        e

ready_job :
    (i : Inputs) (s : Sliced) (w : World)
    → let job = (ready_world (with_result i s w)).job in
      (job.status ≡ ready)
      × (job.output_path ≡ some i.output_path)
      × (job.output_size ≡ some (length s.bytes))
      × (job.estimate ≡ s.estimate)
      × (job.progress ≡ 100)
unfolding touch
ready_job i s w =
    let e = notify_job kind_ready (recorded (in_status ready (with_result i s w))) in
    (
      ap (λ (j : SliceJob). j.status) e,
      ap (λ (j : SliceJob). j.output_path) e,
      ap (λ (j : SliceJob). j.output_size) e,
      ap (λ (j : SliceJob). j.estimate) e,
      ap (λ (j : SliceJob). j.progress) e,
    )

failed_job :
    (m : Message) (w : World)
    → ((failed_world m w).job.status ≡ failed) × ((failed_world m w).job.error ≡ some m)
unfolding touch
failed_job m w =
    let e = notify_job kind_failed _ in
    (ap (λ (j : SliceJob). j.status) e, ap (λ (j : SliceJob). j.error) e)

-- A run that is neither cancelled nor fails to read or write its files or the store's, over events
-- that end with "done" and of which none is an error, and whose job is not printed on its own, ends
-- with a ready job: its path is that of the output file, its size and its estimate are those of the
-- last result that came, and its progress is 100.
pub run_job-last_result :
    (i : Inputs) (job : SliceJob) (has_notifier : Bool) (es : List (ℕ × SlicerEvent)) (t : ℕ)
    (rest : List (ℕ × Round)) (s : Sliced)
    → i.cancel_set ≡ false
    → i.writes ≡ []
    → i.input_readable ≡ true
    → i.output_writable ≡ true
    → i.rounds ≡ until_done es t rest
    → AllPlain es
    → job.auto_print ≡ false
    → last_result none es ≡ some s
    → (w : World) × (run_job i (fresh job has_notifier) ≡ ended w)
      × (w.job.status ≡ ready)
      × (w.job.output_path ≡ some i.output_path)
      × (w.job.output_size ≡ some (length s.bytes))
      × (w.job.estimate ≡ s.estimate)
      × (w.job.progress ≡ 100)
run_job-last_result i job has_notifier es t rest s c f r o rounds p a last =
    let h = loop-Stops es t rest (start i job has_notifier) p refl in
    let w = with_result i s h.final.world in
    let ends : run_job i (fresh job has_notifier) ≡ ended (ready_world w) =
      run_job_starts i job has_notifier c f r
      ∙ ap (λ (x : List (ℕ × Round)). after_loop i (loop x (start i job has_notifier))) rounds
      ∙ ap (λ (x : LoopEnd). after_loop i x) h.stops
      ∙ after_loop-some i job has_notifier h.final s (h.got ∙ last) o
      ∙ finish_ready i job has_notifier s w (h.same ∙ start_same i job has_notifier ∙ a)
      ∙ ap run_end (ready_only-wrote w h.writes) in
    let (is_ready, path, size, estimate, full) = ready_job i s h.final.world in
    (ready_world w, ends, is_ready, path, size, estimate, full)

-- A run that is neither cancelled nor fails to read its file or to write the store's, over events
-- that end with "done" and of which none is an error or a result, ends with a failed job whose error
-- names the events.
pub run_job-no_output :
    (i : Inputs) (job : SliceJob) (has_notifier : Bool) (es : List (ℕ × SlicerEvent)) (t : ℕ)
    (rest : List (ℕ × Round))
    → i.cancel_set ≡ false
    → i.writes ≡ []
    → i.input_readable ≡ true
    → i.rounds ≡ until_done es t rest
    → AllPlain es
    → last_result none es ≡ none
    → (w : World) × (run_job i (fresh job has_notifier) ≡ ended w)
      × (w.job.status ≡ failed)
      × (w.job.error ≡ some (no_output (names es)))
run_job-no_output i job has_notifier es t rest c f r rounds p last =
    let h = loop-Stops es t rest (start i job has_notifier) p refl in
    let m = no_output h.final.events_seen in
    let ends : run_job i (fresh job has_notifier) ≡ ended (failed_world m h.final.world) =
      run_job_starts i job has_notifier c f r
      ∙ ap (λ (x : List (ℕ × Round)). after_loop i (loop x (start i job has_notifier))) rounds
      ∙ ap (λ (x : LoopEnd). after_loop i x) h.stops
      ∙ after_loop-none i job has_notifier h.final (h.got ∙ last)
      ∙ ap run_end (fail-wrote m h.final.world h.writes) in
    let (failed_now, why) = failed_job m h.final.world in
    (_, ends, failed_now, why ∙ ap (λ (n : List String). some (no_output n)) h.named)
