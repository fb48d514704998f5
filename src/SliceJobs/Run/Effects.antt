-- ===== src/SliceJobs/Run/Effects.antt =====
-- What a run of a job changes: the job, the records that it stores, and the notifications.
use bambu_gateway.Prelude.{ℕ, String, Bool, Option, none, some, List, [], ◌∷◌, if◌then◌else◌}
use bambu_gateway.SliceJobs.{SliceJobStatus, failed, SliceJob, touch, Message}

pub data Kind : Type 0 where
  kind_ready kind_printing kind_failed : Kind

-- `stored` and `sent` are newest first; `now` is the clock, which the inputs set. `writes` are the
-- answers of the next writes of the store's file: the text of the exception that one raises. After
-- them all writes are done.
pub record World : Type 0 where
  pub job : SliceJob
  pub stored : List SliceJob
  pub sent : List Kind
  pub has_notifier : Bool
  pub now : ℕ
  pub writes : List (Option String)

-- A write is done, or raises; the job has been changed in memory all the same.
pub data Written : Type 0 where
  wrote : World → Written
  unwritten : String → World → Written

unfoldable pub put_record : List (Option String) → World → Written
put_record [] w = wrote (record w { stored = w.job ∷ w.stored })
put_record (none ∷ rest) w = wrote (record w { stored = w.job ∷ w.stored; writes = rest })
put_record (some e ∷ rest) w = unwritten e (record w { writes = rest })

-- `self._store.upsert(job)`: the job's time is set, and the record is written.
unfoldable pub store : World → Written
store w = put_record w.writes (record w { job = touch w.now w.job })

unfoldable pub set_status : SliceJobStatus → Option String → World → Written
set_status status phase w =
    store (record w { job = record (w.job) { status = status; phase = phase } })

-- What a notifier raises is only logged.
unfoldable pub notify : Kind → World → World
notify kind w = if w.has_notifier then record w { sent = kind ∷ w.sent } else w

abbrev pub then_notify : Kind → Written → Written
then_notify kind (wrote w) = wrote (notify kind w)
then_notify kind (unwritten e w) = unwritten e w

unfoldable pub fail : Message → World → Written
fail message w = then_notify kind_failed (
    set_status failed none
      (record w { job = record (w.job) { error = some message; phase = none } }))

abbrev pub at : ℕ → World → World
at t w = record w { now = t }
