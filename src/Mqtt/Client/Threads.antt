-- ===== src/Mqtt/Client/Threads.antt =====
-- The threads that share a `BambuMQTTClient`, as steps in any order: each holds the lock for one
-- section, or writes `_client` without it as `start` does.
use bambu_gateway.Prelude.{
  ℕ, ◌+◌, ◌-◌, ◌≤◌, ◌≡◌, Bool, true, false, Option, none, some, List, [], ◌∷◌, if◌then◌else◌, ◌==◌,
  nat_eq, is_in,
}
use bambu_gateway.Prelude.Int.{ℤ}
use bambu_gateway.Prelude.Json.{Json}
use bambu_gateway.Mqtt.Apply.{Builtins}
use bambu_gateway.Mqtt.Client.{
  Client, has_client, schedule_disconnect, acquire_lease, release_lease, go_offline, take_client,
  on_connect, apply_optimistic_speed, clear_speed_hold, hold_refill, UpdateEnd, updated, uncaught,
  untyped_field, MessageEnd, ignored, handled, on_message,
}

-- `starting` counts the `start` calls that have found no client and not assigned theirs;
-- `connecting` are the clients whose `connect` runs, `looping` those whose network loop does.
-- `stopping` counts the timers that have run and whose `stop` waits for the lock.
pub record Threads : Type 0 where
  pub shared : Client
  pub next_client : ℕ
  pub starting : ℕ
  pub connecting : List ℕ
  pub looping : List ℕ
  pub stopping : ℕ

abbrev pub without : ℕ → List ℕ → List ℕ
without i [] = []
without i (j ∷ js) = let rest = without i js in if j == i then rest else j ∷ rest

abbrev pub on_shared : (Client → Client) → Threads → Threads
on_shared f t = record t { shared = f t.shared }

-- The first section of `start`.
unfoldable pub begin_start : Threads → Threads
begin_start t =
    if has_client t.shared
    then on_shared schedule_disconnect t
    else record t { starting = t.starting + 1 }

-- `self._client = client`.
unfoldable pub assign_client : Threads → Threads
assign_client t = record t {
  shared = record t.shared { client = some t.next_client };
  next_client = t.next_client + 1;
  starting = t.starting - 1;
  connecting = t.next_client ∷ t.connecting;
}

-- The rest of `start` after `client.connect` has returned or raised.
unfoldable pub end_start : Bool → ℕ → Threads → Threads
end_start true i t = record (on_shared schedule_disconnect t) {
  connecting = without i t.connecting;
  looping = i ∷ t.looping;
}
end_start false i t = record (on_shared go_offline t) { connecting = without i t.connecting }

abbrev pub stopped_loops : Option ℕ → List ℕ → List ℕ
stopped_loops none loops = loops
stopped_loops (some i) loops = without i loops

-- `stop` from the lock to `loop_stop`.
unfoldable pub begin_stop : Threads → Threads
begin_stop t = record (on_shared take_client t) {
  looping = stopped_loops t.shared.client t.looping;
}

-- The timer runs.
unfoldable pub run_timer : Threads → Threads
run_timer t = record t { shared = record t.shared { armed = false }; stopping = t.stopping + 1 }

abbrev pub client_after : UpdateEnd → Client
client_after (updated l c) = c
client_after (uncaught c) = c
client_after (untyped_field c) = c

abbrev pub left_by : MessageEnd → Client
left_by (ignored c) = c
left_by (handled e) = client_after e

-- One pass of the loop of `ensure_connected`, or its last section when the time is over.
unfoldable pub poll_once : Bool → Client → Client
poll_once over c =
    if over
    then schedule_disconnect c
    else if c.live.status.online
    then schedule_disconnect c
    else c

-- What may happen to the shared client without a lease, a start or a stop.
pub data Event : Type 0 where
  polled connected : Bool → Event
  lost : Event
  message : Builtins → ℕ → Option Json → Event
  speed : ℕ → ℤ → Event
  speed_acknowledged : Event
  refill : ℕ → Bool → Event

unfoldable pub react : Event → Client → Client
react (polled over) c = poll_once over c
react (connected ok) c = on_connect ok c
react lost c = go_offline c
react (message py now payload) c = left_by (on_message py now payload c)
react (speed now level) c = apply_optimistic_speed now level c
react speed_acknowledged c = clear_speed_hold c
react (refill now enabled) c = hold_refill now enabled c

-- `timer_stops` is the thread of a timer, and `offline` the last section of `stop`.
pub data Work (t : Threads) : Threads → Type 0 where
  begins : Work t (begin_start t)
  assigns : 1 ≤ t.starting → Work t (assign_client t)
  ends : (ok : Bool) (i : ℕ) → is_in i t.connecting ≡ true → Work t (end_start ok i t)
  acquires : Work t (on_shared acquire_lease t)
  reacts : (e : Event) → Work t (on_shared (react e) t)
  fires : t.shared.armed ≡ true → Work t (run_timer t)
  timer_stops : 1 ≤ t.stopping → Work t (begin_stop (record t { stopping = t.stopping - 1 }))
  offline : Work t (on_shared go_offline t)

-- The work of the timers alone.
pub data TimerWork (t : Threads) : Threads → Type 0 where
  runs : t.shared.armed ≡ true → TimerWork t (run_timer t)
  stops_late : 1 ≤ t.stopping → TimerWork t (begin_stop (record t { stopping = t.stopping - 1 }))

pub data Step (t : Threads) : Threads → Type 0 where
  works : {u : Threads} → Work t u → Step t u
  releases : Step t (on_shared release_lease t)
  stops : Step t (begin_stop t)

pub data Reaches (R : Threads → Threads → Type 0) (t : Threads) : Threads → Type 0 where
  here : Reaches R t t
  later : {u v : Threads} → Reaches R t u → R u v → Reaches R t v

-- No start, no timer and no lease so far.
abbrev pub first_threads : Client → Threads
first_threads c = record {
  shared = c;
  next_client = 0;
  starting = 0;
  connecting = [];
  looping = [];
  stopping = 0;
}
