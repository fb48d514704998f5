-- ===== src/SliceJobs/Run/Loop.antt =====
-- The loop of `_run_job` over the slicer's event stream.
use bambu_gateway.Prelude.{
  ℕ, ◌+◌, min, String, Option, none, some, List, [], ◌∷◌, ◌++◌, if◌then◌else◌, leb,
}
use bambu_gateway.Prelude.Int.{ℤ, pos, negsuc}
use bambu_gateway.Prelude.Json.{Json}
use bambu_gateway.SliceJobs.{Message, slicing_failed}
use bambu_gateway.SliceJobs.Run.Effects.{World, Written, wrote, unwritten, store, at}

-- `edata.get("percent")`: missing or null, no number or NaN, an infinity, or `int(float(...))` of it.
pub data Percent : Type 0 where
  absent unreadable infinite : Percent
  percent : ℤ → Percent

-- `file_base64`: missing or empty, not base64, or the bytes.
pub data Blob : Type 0 where
  no_blob : Blob
  bad_blob : String → Blob
  blob : List ℕ → Blob

-- A progress event has the percentage and the text that its log line holds, for when it has no
-- percentage of its own; an error event has the text that is made of its parts.
pub data SlicerEvent : Type 0 where
  progress : Percent → Option ℤ → Option String → SlicerEvent
  status : Option String → SlicerEvent
  result : Blob → Option Json → Option Json → SlicerEvent
  error : String → SlicerEvent
  done : SlicerEvent
  other : String → SlicerEvent

-- What one round of the loop waits for. The stream's end is the end of the list of rounds.
pub data Round : Type 0 where
  cancel_seen : Round
  event : SlicerEvent → Round
  stream_raised : String → Round

pub record Sliced : Type 0 where
  pub bytes : List ℕ
  pub estimate : Option Json
  pub settings_transfer : Option Json

pub record LoopState : Type 0 where
  pub world : World
  pub sliced : Option Sliced
  pub last_write : ℕ
  pub events_seen : List String

pub data LoopEnd : Type 0 where
  loop_cancelled : World → LoopEnd
  loop_failed : Message → World → LoopEnd
  loop_stopped : LoopState → LoopEnd

abbrev pub write_interval_ms : ℕ
write_interval_ms = 1000

-- `max(0, min(100, pct))`.
unfoldable pub clamp : ℤ → ℕ
clamp (pos n) = min 100 n
clamp (negsuc n) = 0

abbrev pub set_progress : Option ℤ → World → World
set_progress none w = w
set_progress (some n) w = record w { job = record (w.job) { progress = clamp n } }

abbrev pub set_phase : Option String → World → World
set_phase none w = w
set_phase (some p) w = record w { job = record (w.job) { phase = some p } }

-- `none` is the OverflowError of an infinity, which the handler of a bad number does not catch.
unfoldable pub on_progress : Percent → Option ℤ → Option String → World → Option World
on_progress absent line_percent line_message w =
    some (set_phase line_message (set_progress line_percent w))
on_progress unreadable line_percent line_message w = some w
on_progress infinite line_percent line_message w = none
on_progress (percent n) line_percent line_message w = some (set_progress (some n) w)

abbrev pub event_name : SlicerEvent → String
event_name (progress p n m) = "progress"
event_name (status p) = "status"
event_name (result b e s) = "result"
event_name (error e) = "error"
event_name done = "done"
event_name (other name) = name

pub data Next : Type 0 where
  go_on stop : LoopState → Next
  raise : String → LoopState → Next

abbrev pub after_write : LoopState → Written → Next
after_write l (wrote w) = go_on (record l { world = w; last_write = l.world.now })
after_write l (unwritten e w) = raise e (record l { world = w })

-- At most one write a second.
unfoldable pub throttled_store : LoopState → Next
throttled_store l =
    if leb (l.last_write + write_interval_ms) l.world.now
    then after_write l (store l.world)
    else go_on l

-- The branches on the event's type.
unfoldable pub on_event : SlicerEvent → LoopState → Next
unfolding on_progress
on_event (progress p n m) l = elim (on_progress p n m l.world) [
  | none ↦ raise "cannot convert float infinity to integer" l
  | some w ↦ throttled_store (record l { world = w })
]
on_event (status none) l = go_on l
on_event (status (some p)) l = throttled_store (record l { world = set_phase (some p) l.world })
on_event (result no_blob estimate transfer) l = raise "result event missing file_base64" l
on_event (result (bad_blob e) estimate transfer) l = raise e l
on_event (result (blob bytes) estimate transfer) l = go_on (record l {
  sliced = some (record { bytes = bytes; estimate = estimate; settings_transfer = transfer });
})
on_event (error message) l = raise message l
on_event done l = stop l
on_event (other name) l = go_on l

abbrev pub seen : SlicerEvent → LoopState → LoopState
seen e l = record l { events_seen = l.events_seen ++ event_name e ∷ [] }

abbrev pub clock : ℕ → LoopState → LoopState
clock t l = record l { world = at t l.world }

-- The exceptions of the loop end it in one handler; a cancellation leaves it at once.
unfoldable pub loop : List (ℕ × Round) → LoopState → LoopEnd
loop [] l = loop_stopped l
loop ((t, cancel_seen) ∷ rounds) l = loop_cancelled (at t l.world)
loop ((t, stream_raised e) ∷ rounds) l = loop_failed (slicing_failed e) (at t l.world)
loop ((t, event e) ∷ rounds) l = elim (on_event e (seen e (clock t l))) [
  | go_on l' ↦ loop rounds l'
  | stop l' ↦ loop_stopped l'
  | raise message l' ↦ loop_failed (slicing_failed message) l'.world
]
