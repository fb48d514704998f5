-- ===== src/Tracking/Feed.antt =====
-- The subscribers of a `PrintEventBroker` in app/print_tracking.py, and the leases of the printer's
-- connection that they hold. A connection is the number of the client whose bound methods are passed
-- in; `calls` are the calls of `acquire` and `release` that have run, the last one first. What runs
-- between two awaits or under the lock is one step, and so is each call in a thread. The calls of
-- `set_connection_lease` follow one another.
pub mod Holds
pub mod Balance
pub mod Leases
use bambu_gateway.Prelude.{
  ℕ, suc, zero, ◌+◌, String, Bool, true, false, not, ◌&&◌, Option, none, some, List, [], ◌∷◌, ◌++◌,
  if◌then◌else◌, leb, ltb, length, nat_eq, nat_beq, ◌≡◌,
}
use bambu_gateway.Prelude.Json.{Fields}
use bambu_gateway.Prelude.Dict
use bambu_gateway.Prelude.Dict.{Dict}
use bambu_gateway.Tracking.Broker.{Library, Snapshot, Broker}
use bambu_gateway.Tracking.Broker.Update.{update}

pub data Call : Type 0 where
  acquired released : ℕ → Call

-- Where a run of `subscribe` is: `calling` has read `acquire`, which has run in `entered`; a
-- registered one is an entry of `_subscribers`; `leaving` has left the dictionary, and `releasing` has
-- read `release`. `gone` is at its end or has been cancelled with no call left to make; `lost` has
-- been cancelled while it held a lease, and never releases it.
pub data Phase : Type 0 where
  calling entered releasing lost : Option ℕ → Phase
  registered : List Snapshot → Phase
  leaving gone : Phase

-- `tasks` are the runs of `subscribe`; `transfers` the calls that `set_connection_lease` has yet to
-- make.
pub record Feed : Type 0 where
  pub broker : Broker
  pub max_queue_size : ℕ
  pub tasks : Dict ℕ Phase
  pub acquire_connection : Option ℕ
  pub release_connection : Option ℕ
  pub transfers : List Call
  pub calls : List Call

abbrev tail_of {ℓ} : {A : Type ℓ} → List A → List A
tail_of [] = []
tail_of (x ∷ xs) = xs

-- A queue of size 0 is never full.
abbrev pub is_full : ℕ → List Snapshot → Bool
is_full maxsize q = ltb 0 maxsize && leb maxsize (length q)

unfoldable pub enqueue_latest : ℕ → Snapshot → List Snapshot → List Snapshot
enqueue_latest maxsize s q =
    let room = if is_full maxsize q then tail_of q else q in
    if is_full maxsize room then room else room ++ s ∷ []

abbrev pub enqueued : ℕ → Snapshot → Phase → Phase
enqueued maxsize s (registered q) = registered (enqueue_latest maxsize s q)
enqueued maxsize s p = p

unfoldable pub enqueue_all : ℕ → Snapshot → Dict ℕ Phase → Dict ℕ Phase
enqueue_all maxsize s [] = []
enqueue_all maxsize s ((id, p) ∷ rest) = (id, enqueued maxsize s p) ∷ enqueue_all maxsize s rest

unfoldable pub fan_out : Snapshot → Feed → Feed
fan_out s h = record h { tasks = enqueue_all h.max_queue_size s h.tasks }

-- `update` with the fan-out that it ends with.
unfoldable pub publish_report : Library → ℕ → Fields → Feed → Feed
publish_report py now report h =
    let b = update py now report h.broker in fan_out b.snapshot (record h { broker = b })

abbrev pub call_if : (ℕ → Call) → Option ℕ → List Call → List Call
call_if f none calls = calls
call_if f (some c) calls = f c ∷ calls

abbrev pub move : ℕ → Phase → Feed → Feed
move id p h = record h { tasks = Dict.insert id p h.tasks }

-- `subscribe` up to the await of `acquire`, the call in its thread, and the section after it.
unfoldable pub begin_subscribe : ℕ → Feed → Feed
begin_subscribe id h = move id (calling h.acquire_connection) h

unfoldable pub run_acquire : ℕ → Option ℕ → Feed → Feed
run_acquire id o h = record (move id (entered o) h) { calls = call_if acquired o h.calls }

unfoldable pub add_subscriber : ℕ → Feed → Feed
add_subscriber id h = move id (registered (h.broker.snapshot ∷ [])) h

-- The `finally`: the section, the reading of `release`, and the call in its thread.
unfoldable pub drop_subscriber : ℕ → Feed → Feed
drop_subscriber id h = move id leaving h

unfoldable pub read_release : ℕ → Feed → Feed
read_release id h = move id (releasing h.release_connection) h

unfoldable pub run_release : ℕ → Option ℕ → Feed → Feed
run_release id o h = record (move id gone h) { calls = call_if released o h.calls }

-- A cancellation while an await runs; one inside the `yield` goes on in the `finally`.
unfoldable pub after_cancel : Phase → Phase
after_cancel (calling o) = gone
after_cancel (entered o) = lost o
after_cancel (releasing o) = lost o
after_cancel (lost o) = lost o
after_cancel (registered q) = registered q
after_cancel leaving = leaving
after_cancel gone = gone

-- A sum over the runs of `subscribe`.
unfoldable pub total : (Phase → ℕ) → Dict ℕ Phase → ℕ
total f [] = 0
total f ((id, p) ∷ rest) = f p + total f rest

abbrev pub is_registered : Phase → ℕ
is_registered (registered q) = 1
is_registered _ = 0

unfoldable pub subscriber_count : Feed → ℕ
subscriber_count h = total is_registered h.tasks

unfoldable pub call_times : ℕ → Call → List Call → List Call
call_times zero c calls = calls
call_times (suc n) c calls = c ∷ call_times n c calls

abbrev pub calls_for : ℕ → (ℕ → Call) → Option ℕ → List Call → List Call
calls_for n f none calls = calls
calls_for n f (some c) calls = call_times n (f c) calls

abbrev pub option_beq : Option ℕ → Option ℕ → Bool
option_beq none none = true
option_beq (some a) (some b) = nat_beq a b
option_beq _ _ = false

-- The section of `set_connection_lease`, after which every subscriber's lease moves to the new
-- connection, one call after another.
unfoldable pub set_connection_lease : Option ℕ → Option ℕ → Feed → Feed
set_connection_lease acquire release h =
    let n = subscriber_count h in
    let moved = calls_for n released h.release_connection (calls_for n acquired acquire []) in
    record h {
      acquire_connection = acquire;
      release_connection = release;
      transfers =
          if option_beq h.release_connection release then h.transfers else h.transfers ++ moved;
    }

unfoldable pub run_transfer : Feed → Feed
run_transfer h = elim h.transfers [
  | [] ↦ h
  | c ∷ rest ↦ record h { transfers = rest; calls = c ∷ h.calls }
]

-- What happens while the connection stays.
pub data Work (py : Library) (h : Feed) : Feed → Type 0 where
  reports : (now : ℕ) (report : Fields) → Work py h (publish_report py now report h)
  publishes : (b : Broker) → Work py h (fan_out b.snapshot (record h { broker = b }))
  begins : (id : ℕ) → Dict.lookup id h.tasks ≡ none → Work py h (begin_subscribe id h)
  acquires :
      (id : ℕ) (o : Option ℕ)
      → Dict.lookup id h.tasks ≡ some (calling o)
      → Work py h (run_acquire id o h)
  registers :
      (id : ℕ) (o : Option ℕ)
      → Dict.lookup id h.tasks ≡ some (entered o)
      → Work py h (add_subscriber id h)
  leaves :
      (id : ℕ) (q : List Snapshot)
      → Dict.lookup id h.tasks ≡ some (registered q)
      → Work py h (drop_subscriber id h)
  reads : (id : ℕ) → Dict.lookup id h.tasks ≡ some leaving → Work py h (read_release id h)
  releases :
      (id : ℕ) (o : Option ℕ)
      → Dict.lookup id h.tasks ≡ some (releasing o)
      → Work py h (run_release id o h)
  cancels :
      (id : ℕ) (p : Phase)
      → Dict.lookup id h.tasks ≡ some p
      → Work py h (move id (after_cancel p) h)
  moves : Work py h (run_transfer h)

pub data Reaches (py : Library) (h : Feed) : Feed → Type 0 where
  here : Reaches py h h
  later : {i j : Feed} → Reaches py h i → Work py i j → Reaches py h j

abbrev pub new_feed : Broker → ℕ → Option ℕ → Feed
new_feed b maxsize connection = record {
  broker = b;
  max_queue_size = maxsize;
  tasks = [];
  acquire_connection = connection;
  release_connection = connection;
  transfers = [];
  calls = [];
}
