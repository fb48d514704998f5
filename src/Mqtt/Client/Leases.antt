-- ===== src/Mqtt/Client/Leases.antt =====
-- What a lease of the connection and the idle timer guarantee, and what a lease costs.
use mathlib.Core.Path.{subst}
use bambu_gateway.Prelude.{
  ℕ, ◌+◌, ◌-◌, ◌≤◌, ◌≡◌, ◌≢◌, ◌⊎◌, inl, inr, refl, ◌∙◌, Bool, true, false, ◌&&◌, none, some, List,
  [], ◌∷◌, arith, if◌then◌else◌, nat_beq, nat_eq, is_in,
}
use bambu_gateway.ConfigStore.{PrinterConfig}
use bambu_gateway.Mqtt.Client.{
  Client, new_client, has_client, schedule_disconnect, acquire_lease, cancel_timer, take_client,
}
use bambu_gateway.Mqtt.Client.Threads.{
  Threads, without, on_shared, begin_start, begin_stop, run_timer, Work, begins, assigns, ends,
  acquires, reacts, fires, timer_stops, offline, Step, TimerWork, runs, stops_late, Reaches, here,
  later, first_threads,
}
use bambu_gateway.Mqtt.Client.Sections.{
  SameLease, schedule_disconnect-SameLease, go_offline-SameLease, react-SameLease,
}
use bambu_gateway.Mqtt.Client.Idle.{run-IsSound, timed, timed_anew}

-- Whatever the order of the threads, from a new client on: a live idle timer has a client to close,
-- and nobody leases the connection.
pub Reaches-timed :
    (config : PrinterConfig) (u : Threads)
    → Reaches Step (first_threads (new_client config)) u
    → timed u.shared ≡ true
Reaches-timed config u r = (run-IsSound config u r).timer

not_in_without : (i : ℕ) (js : List ℕ) → is_in i (without i js) ≡ false
not_in_without i [] = refl
not_in_without i (j ∷ js) = let rest = not_in_without i js in ground (arith, rest)

closes :
    (i n : ℕ) (t : Threads)
    → t.shared.client ≡ some i
    → ((begin_stop (record t { stopping = n })).shared.client ≡ none)
      × (is_in i (begin_stop (record t { stopping = n })).looping ≡ false)
unfolding begin_stop take_client
closes i n t e = (refl, rw e (not_in_without i t.looping))

-- In every state that a new client comes to, if the network loop of its client runs and nobody
-- leases the connection, then a timer is set or its `stop` waits for the lock, and the timers alone,
-- with no call of any other thread, come to drop the client and to stop its loop.
pub idle-closes :
    (config : PrinterConfig) (t : Threads) (i : ℕ)
    → Reaches Step (first_threads (new_client config)) t
    → t.shared.client ≡ some i
    → is_in i t.looping ≡ true
    → t.shared.connection_leases ≡ 0
    → ((t.shared.armed ≡ true) ⊎ (1 ≤ t.stopping))
      × ((u : Threads) × Reaches TimerWork t u
          × (u.shared.client ≡ none)
          × (is_in i u.looping ≡ false))
unfolding run_timer
idle-closes config t i r e l f =
    let watch = (run-IsSound config t r).watched i e l f in
    (
      watch,
      elim watch [
        | inl armed ↦
            let (gone, stopped) = closes i (t.stopping + 1 - 1) (run_timer t) e in
            (_, later (later here (runs armed)) (stops_late (omega arith)), gone, stopped)
        | inr waits ↦
            let (gone, stopped) = closes i (t.stopping - 1) t e in
            (_, later here (stops_late waits), gone, stopped)
      ],
    )

-- A client that somebody leases, with no start, connection attempt or timer of before under way.
pub record IsLeased (i : ℕ) (running : List ℕ) (t : Threads) : Type 0 where
  pub client : t.shared.client ≡ some i
  pub leased : 1 ≤ t.shared.connection_leases
  pub loops : t.looping ≡ running
  pub no_start : t.starting ≡ 0
  pub no_connect : t.connecting ≡ []
  pub no_stop : t.stopping ≡ 0
  pub timer : timed t.shared ≡ true

same-IsLeased :
    (i : ℕ) (running : List ℕ) (t : Threads) (c : Client)
    → SameLease t.shared c
    → IsLeased i running t
    → IsLeased i running (record t { shared = c })
same-IsLeased i running t c k h = record {
  client = k.client ∙ h.client;
  leased = rw k.leases h.leased;
  loops = h.loops;
  no_start = h.no_start;
  no_connect = h.no_connect;
  no_stop = h.no_stop;
  timer = timed_anew t.shared c k h.timer;
}

unarmed : (b h : Bool) (n : ℕ) → (if b then h && nat_beq n 0 else true) ≡ true → 1 ≤ n → b ≢ true
unarmed b h n e l armed = ground (arith, e, l, armed)

client_there : (c : Client) (i : ℕ) → c.client ≡ some i → has_client c ≡ true
client_there c i e = rw e refl

begun-IsLeased :
    (i : ℕ) (running : List ℕ) (t : Threads) (b : Bool)
    → b ≡ true
    → IsLeased i running t
    → IsLeased i running
        (if b then on_shared schedule_disconnect t else record t { starting = t.starting + 1 })
begun-IsLeased i running t true e h =
    same-IsLeased i running t _ (schedule_disconnect-SameLease t.shared) h
begun-IsLeased i running t false e h = absurd cc

Work-IsLeased :
    (i : ℕ) (running : List ℕ) (t u : Threads)
    → Work t u
    → IsLeased i running t
    → IsLeased i running u
unfolding begin_start acquire_lease cancel_timer
Work-IsLeased i running t _ begins h =
    begun-IsLeased i running t (has_client t.shared) (client_there t.shared i h.client) h
Work-IsLeased i running t _ (assigns s) h = absurd (omega (arith, s, h.no_start))
Work-IsLeased i running t _ (ends ok j e) h =
    let f : is_in j [] ≡ true = subst (λ js. is_in j js ≡ true) h.no_connect e in absurd cc
Work-IsLeased i running t _ acquires h = record {
  client = h.client;
  leased = omega arith;
  loops = h.loops;
  no_start = h.no_start;
  no_connect = h.no_connect;
  no_stop = h.no_stop;
  timer = refl;
}
Work-IsLeased i running t _ (reacts e) h =
    same-IsLeased i running t _ (react-SameLease e t.shared) h
Work-IsLeased i running t _ (fires armed) h =
    absurd (unarmed t.shared.armed _ t.shared.connection_leases h.timer h.leased armed)
Work-IsLeased i running t _ (timer_stops s) h = absurd (omega (arith, s, h.no_stop))
Work-IsLeased i running t _ offline h =
    same-IsLeased i running t _ (go_offline-SameLease t.shared) h

-- While somebody leases a client, and no start, connection attempt or timer of before is under way,
-- no order of the threads' work but a release and a `stop` that somebody calls takes the client
-- away, stops its network loop or starts one: not even for a client that has failed to connect.
pub Reaches-IsLeased :
    (i : ℕ) (running : List ℕ) (t u : Threads)
    → IsLeased i running t
    → Reaches Work t u
    → IsLeased i running u
Reaches-IsLeased i running t u h here = h
Reaches-IsLeased i running t u h (later {u = v} r w) =
    Work-IsLeased i running v u w (Reaches-IsLeased i running t v h r)
