-- ===== src/Mqtt/Client/Idle.antt =====
-- When the idle timer runs, in every order of the threads.
use bambu_gateway.Prelude.{
  ℕ, ◌+◌, ◌-◌, ◌≤◌, ◌<◌, ◌≡◌, ◌⊎◌, inl, inr, refl, sym, ◌∙◌, Bool, true, false, ◌&&◌, Option, none,
  some, List, [], ◌∷◌, arith, if◌then◌else◌, nat_beq, nat_eq, is_in,
}
use bambu_gateway.ConfigStore.{PrinterConfig}
use bambu_gateway.Mqtt.Client.{
  Client, new_client, has_client, schedule_disconnect, cancel_timer, acquire_lease, release_lease,
  take_client,
}
use bambu_gateway.Mqtt.Client.Threads.{
  Threads, without, on_shared, begin_start, assign_client, end_start, stopped_loops, begin_stop,
  run_timer, Work, begins, assigns, ends, acquires, reacts, fires, timer_stops, offline, Step,
  works, releases, stops, Reaches, here, later, first_threads,
}
use bambu_gateway.Mqtt.Client.Sections.{
  SameLease, schedule_disconnect-SameLease, go_offline-SameLease, react-SameLease,
}

-- A live timer has a client to close and no lease to respect.
abbrev pub timed : Client → Bool
timed c = if c.armed then has_client c && nat_beq c.connection_leases 0 else true

-- A running network loop that nobody leases will be closed.
abbrev pub Watched : Threads → Type 0
Watched t =
    (i : ℕ)
    → t.shared.client ≡ some i
    → is_in i t.looping ≡ true
    → t.shared.connection_leases ≡ 0
    → (t.shared.armed ≡ true) ⊎ (1 ≤ t.stopping)

abbrev pub Below : ℕ → List ℕ → Type 0
Below n js = (i : ℕ) → is_in i js ≡ true → i < n

pub record IsSound (t : Threads) : Type 0 where
  pub timer : timed t.shared ≡ true
  pub watched : Watched t
  pub used : Below t.next_client t.looping
  pub trying : Below t.next_client t.connecting

test_of_itself : (b : Bool) → (if b then b else true) ≡ true
test_of_itself true = refl
test_of_itself false = refl

pub timed_anew : (c c' : Client) → SameLease c c' → timed c ≡ true → timed c' ≡ true
timed_anew c c' h k = elim h.timer [
  | inl e ↦ rw (e, h.client, h.leases) k
  | inr e ↦
      rw (e, h.client, h.leases) (test_of_itself (has_client c && nat_beq c.connection_leases 0))
]

watched_anew :
    (c c' : Client) (i n : ℕ)
    → SameLease c c'
    → c'.client ≡ some i
    → c'.connection_leases ≡ 0
    → (c.client ≡ some i → c.connection_leases ≡ 0 → (c.armed ≡ true) ⊎ (1 ≤ n))
    → (c'.armed ≡ true) ⊎ (1 ≤ n)
watched_anew c c' i n h e f k = elim h.timer [
  | inl same ↦ rw same (k (sym h.client ∙ e) (sym h.leases ∙ f))
  | inr anew ↦ inl (anew ∙ rw (sym h.client ∙ e, sym h.leases ∙ f) refl)
]

same-IsSound :
    (t : Threads) (c : Client)
    → SameLease t.shared c
    → IsSound t
    → IsSound (record t { shared = c })
same-IsSound t c h s = record {
  timer = timed_anew t.shared c h s.timer;
  watched = λ i e l f. watched_anew t.shared c i t.stopping h e f (λ e f. s.watched i e l f);
  used = s.used;
  trying = s.trying;
}

is_in-without : (i j : ℕ) (js : List ℕ) → is_in i (without j js) ≡ true → is_in i js ≡ true
is_in-without i j [] h = h
is_in-without i j (k ∷ js) h = let rest = is_in-without i j js in ground (arith, rest)

begin_start-IsSound : (t : Threads) → IsSound t → IsSound (begin_start t)
unfolding begin_start
begin_start-IsSound t s = by_client (has_client t.shared)
  where
    by_client :
        (b : Bool)
        → IsSound
            (if b then on_shared schedule_disconnect t else record t { starting = t.starting + 1 })
    by_client true = same-IsSound t _ (schedule_disconnect-SameLease t.shared) s
    by_client false = record {
      timer = s.timer;
      watched = s.watched;
      used = s.used;
      trying = s.trying;
    }

scheduled :
    (c : Client) (i : ℕ)
    → c.client ≡ some i
    → c.connection_leases ≡ 0
    → (schedule_disconnect c).armed ≡ true
unfolding schedule_disconnect
scheduled c i e f = rw (e, f) refl

client_given : (b h l : Bool) → (if b then h && l else true) ≡ true → (if b then l else true) ≡ true
client_given true true l e = e
client_given true false l e = cc
client_given false h l e = refl

Below-next : (n : ℕ) (js : List ℕ) → Below n js → Below (n + 1) js
Below-next n js h i e = omega (arith, h i e)

assign_client-IsSound : (t : Threads) → IsSound t → IsSound (assign_client t)
unfolding assign_client
assign_client-IsSound t s = record {
  timer = client_given t.shared.armed _ _ s.timer;
  watched =
      λ i e l f. let same : t.next_client ≡ i = cc in absurd (omega (arith, s.used i l, same));
  used = Below-next t.next_client t.looping s.used;
  trying = λ i e. let old = s.trying i in ground (arith, old);
}

end_start-IsSound :
    (ok : Bool) (i : ℕ) (t : Threads)
    → is_in i t.connecting ≡ true
    → IsSound t
    → IsSound (end_start ok i t)
unfolding end_start schedule_disconnect
end_start-IsSound true i t h s =
    let anew = same-IsSound t _ (schedule_disconnect-SameLease t.shared) s in
    record {
      timer = anew.timer;
      watched = λ j e l f. inl (scheduled t.shared j e f);
      used = λ j e. let new = s.trying i h in let old = s.used j in ground (arith, new, old);
      trying = λ j e. s.trying j (is_in-without j i t.connecting e);
    }
end_start-IsSound false i t h s =
    let anew = same-IsSound t _ (go_offline-SameLease t.shared) s in
    record {
      timer = anew.timer;
      watched = anew.watched;
      used = s.used;
      trying = λ j e. s.trying j (is_in-without j i t.connecting e);
    }

acquire_lease-IsSound : (t : Threads) → IsSound t → IsSound (on_shared acquire_lease t)
unfolding acquire_lease cancel_timer
acquire_lease-IsSound t s = record {
  timer = refl;
  watched = λ i e l f. absurd (omega (arith, f));
  used = s.used;
  trying = s.trying;
}

leases_left :
    (b h : Bool) (n : ℕ)
    → (if b then h && nat_beq n 0 else true) ≡ true
    → nat_beq (n - 1) 0 ≡ false
    → (if b then h && nat_beq (n - 1) 0 else true) ≡ true
leases_left b h n e z = ground arith

release_lease-IsSound : (t : Threads) → IsSound t → IsSound (on_shared release_lease t)
unfolding release_lease schedule_disconnect
release_lease-IsSound t s = by_count (nat_beq (t.shared.connection_leases - 1) 0) refl
  where
    left : Client
    left = record t.shared { connection_leases = t.shared.connection_leases - 1 }

    by_count :
        (b : Bool)
        → nat_beq (t.shared.connection_leases - 1) 0 ≡ b
        → IsSound (record t { shared = if b then schedule_disconnect left else left })
    by_count true z = record {
      timer = test_of_itself (has_client left && nat_beq left.connection_leases 0);
      watched = λ i e l f. inl (scheduled left i e f);
      used = s.used;
      trying = s.trying;
    }
    by_count false z = record {
      timer = leases_left t.shared.armed _ t.shared.connection_leases s.timer z;
      watched = λ i e l f. absurd (ground (arith, z, f));
      used = s.used;
      trying = s.trying;
    }

begin_stop-IsSound :
    (n : ℕ) (t : Threads) → IsSound t → IsSound (begin_stop (record t { stopping = n }))
unfolding begin_stop take_client cancel_timer
begin_stop-IsSound n t s = record {
  timer = refl;
  watched = λ i e l f. absurd cc;
  used = stopped_case t.shared.client;
  trying = s.trying;
}
  where
    stopped_case : (o : Option ℕ) → Below t.next_client (stopped_loops o t.looping)
    stopped_case none j e = s.used j e
    stopped_case (some i) j e = s.used j (is_in-without j i t.looping e)

run_timer-IsSound : (t : Threads) → IsSound t → IsSound (run_timer t)
unfolding run_timer
run_timer-IsSound t s = record {
  timer = refl;
  watched = λ i e l f. inr (omega arith);
  used = s.used;
  trying = s.trying;
}

Work-IsSound : (t u : Threads) → Work t u → IsSound t → IsSound u
Work-IsSound t _ begins s = begin_start-IsSound t s
Work-IsSound t _ (assigns _) s = assign_client-IsSound t s
Work-IsSound t _ (ends ok i h) s = end_start-IsSound ok i t h s
Work-IsSound t _ acquires s = acquire_lease-IsSound t s
Work-IsSound t _ (reacts e) s = same-IsSound t _ (react-SameLease e t.shared) s
Work-IsSound t _ (fires _) s = run_timer-IsSound t s
Work-IsSound t _ (timer_stops _) s = begin_stop-IsSound (t.stopping - 1) t s
Work-IsSound t _ offline s = same-IsSound t _ (go_offline-SameLease t.shared) s

Reaches-IsSound : (t u : Threads) → Reaches Step t u → IsSound t → IsSound u
Reaches-IsSound t u here s = s
Reaches-IsSound t u (later {u = v} r (works w)) s = Work-IsSound v u w (Reaches-IsSound t v r s)
Reaches-IsSound t _ (later {u = v} r releases) s = release_lease-IsSound v (Reaches-IsSound t v r s)
Reaches-IsSound t _ (later {u = v} r stops) s =
    begin_stop-IsSound v.stopping v (Reaches-IsSound t v r s)

first-IsSound : (config : PrinterConfig) → IsSound (first_threads (new_client config))
unfolding new_client
first-IsSound config = record {
  timer = refl;
  watched = λ i e l f. absurd cc;
  used = λ i e. absurd cc;
  trying = λ i e. absurd cc;
}

pub run-IsSound :
    (config : PrinterConfig) (u : Threads)
    → Reaches Step (first_threads (new_client config)) u
    → IsSound u
run-IsSound config u r = Reaches-IsSound _ u r (first-IsSound config)
