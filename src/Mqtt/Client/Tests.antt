-- ===== src/Mqtt/Client/Tests.antt =====
-- Threads of one client, and the theorems at the states that they come to.
use bambu_gateway.Prelude.{◌≤◌, ◌≡◌, ◌⊎◌, refl, true, false, none, [], ◌∷◌, arith, is_in, nat_eq}
use bambu_gateway.ConfigStore.{PrinterConfig}
use bambu_gateway.Mqtt.Client.{
  new_client, schedule_disconnect, acquire_lease, cancel_timer, go_offline, take_client,
}
use bambu_gateway.Mqtt.Client.Threads.{
  Threads, on_shared, begin_start, assign_client, end_start, begin_stop, run_timer, TimerWork,
  begins, assigns, ends, Step, works, Reaches, here, later, first_threads,
}
use bambu_gateway.Mqtt.Client.Leases.{idle-closes, IsLeased, Reaches-IsLeased}

abbrev config : PrinterConfig
config = record {
  ip = "10.0.0.2";
  access_code = "12345678";
  serial = "01S00A1234";
  name = "A1";
  machine_model = "A1";
  default_plate_type = "";
}

abbrev start : Threads
start = first_threads (new_client config)

abbrev assigned : Threads → Threads
assigned t = assign_client (begin_start t)

one_starts : 1 ≤ (begin_start start).starting
unfolding begin_start new_client
one_starts = omega arith

one_connects : is_in 0 (assigned start).connecting ≡ true
unfolding begin_start assign_client new_client
one_connects = refl

abbrev connected_once : Threads
connected_once = end_start true 0 (assigned start)

connects : Reaches Step start connected_once
connects =
    later (later (later here (works begins)) (works (assigns one_starts)))
      (works (ends true 0 one_connects))

idle-closes_example :
    ((connected_once.shared.armed ≡ true) ⊎ (1 ≤ connected_once.stopping))
    × ((u : Threads) × Reaches TimerWork connected_once u
        × (u.shared.client ≡ none)
        × (is_in 0 u.looping ≡ false))
unfolding begin_start assign_client end_start new_client schedule_disconnect
idle-closes_example = idle-closes config connected_once 0 connects refl refl refl

-- A lease, and a first connection that fails.
abbrev leased : Threads
leased = on_shared acquire_lease start

abbrev failed : Threads
failed = end_start false 0 (assigned leased)

failed-IsLeased : IsLeased 0 [] failed
unfolding begin_start assign_client end_start new_client acquire_lease cancel_timer go_offline
failed-IsLeased = record {
  client = refl;
  leased = omega arith;
  loops = refl;
  no_start = refl;
  no_connect = refl;
  no_stop = refl;
  timer = refl;
}

Reaches-IsLeased_example : IsLeased 0 [] (begin_start failed)
Reaches-IsLeased_example =
    Reaches-IsLeased 0 [] failed (begin_start failed) failed-IsLeased (later here begins)

-- Two starts that find no client leave the network loop of the first one running for good.
abbrev twice : Threads
twice =
    end_start true 1
      (assign_client (end_start true 0 (assign_client (begin_start (begin_start start)))))

first_loop_is_lost :
    ((begin_stop twice).shared.client ≡ none) × ((begin_stop twice).looping ≡ 0 ∷ [])
unfolding begin_start assign_client end_start begin_stop new_client schedule_disconnect take_client
    cancel_timer
first_loop_is_lost = (refl, refl)

-- A timer that has run takes the client from a lease that comes before its stop.
abbrev raced : Threads
raced = begin_stop (on_shared acquire_lease (run_timer connected_once))

lease_without_client : (raced.shared.client ≡ none) × (raced.shared.connection_leases ≡ 1)
unfolding begin_start assign_client end_start begin_stop run_timer new_client schedule_disconnect
    take_client cancel_timer acquire_lease
lease_without_client = (refl, refl)
