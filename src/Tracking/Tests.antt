-- ===== src/Tracking/Tests.antt =====
-- A sample broker, and the theorems at it.
use bambu_gateway.Prelude.{
  ℕ, ◌+◌, ◌<◌, ◌≤◌, ◌≡◌, ◌⊎◌, refl, String, true, none, some, List, [], ◌∷◌, nat_eq, string_eq,
}
use bambu_gateway.Prelude.Int.{pos}
use bambu_gateway.Prelude.Json.{truthy, num, str, obj, Fields, end, field, member}
use bambu_gateway.Prelude.Dict
use bambu_gateway.Prelude.Show.{
  lower, upper, strip_text, lstrip_text, reverse_text, show_int, show_nat, show_digits,
}
use bambu_gateway.Tracking.Reports.{put, merge, text_of, text, name_identity}
use bambu_gateway.Tracking.Reports.Merged.{has_distinct_keys, merged_at, member-merge}
use bambu_gateway.Tracking.Broker.{
  Library, source_status, Broker, new_broker, empty_snapshot, derive_job_key,
}
use bambu_gateway.Tracking.Broker.Build.{
  build_snapshot, choose_key, find_source, take_pending, take_reported, snapshot_of, state_in,
  status_with,
}
use bambu_gateway.Tracking.Broker.Update.{
  id_changed, id_stable, is_boundary, forgets, reset_job, update, register_source, source_key,
  new_source, source_for,
}
use bambu_gateway.Tracking.Broker.Boundary.{without_history, update-without_history}
use bambu_gateway.Tracking.Broker.Steps.{updates, here, Step-sequence}
use bambu_gateway.Tracking.Broker.Registered.{update_all, same_job, register_source-source_for}
use bambu_gateway.Tracking.Feed.{
  Feed, total, subscriber_count, new_feed, begin_subscribe, run_acquire, add_subscriber,
  drop_subscriber, read_release, run_release, set_connection_lease, begins, acquires, call_times,
  acquired, released,
}
use bambu_gateway.Tracking.Feed
use bambu_gateway.Tracking.Feed.Holds.{times_acquired, times_released, leases_held}
use bambu_gateway.Tracking.Feed.Leases.{Reaches-leases}

abbrev py : Library
py = record { str_of = λ _. ""; urlparse = λ _. none; digest = λ _. "00" }

abbrev broker : Broker
broker = new_broker "p1" true

abbrev layer_report : Fields
layer_report =
    field "layer_num" (num (pos 7)) (field "ams" (obj (field "tray_now" (str "2") end)) end)

abbrev older : Fields
older = field "ams" (obj (field "version" (num (pos 3)) end)) end

member-merge_example :
    member "ams" (merge older layer_report)
    ≡ merged_at (member "ams" older) (member "ams" layer_report)
unfolding has_distinct_keys member Dict.lookup
member-merge_example = member-merge "ams" older layer_report refl

-- The print before has ended, and another one starts.
abbrev ended : Broker
ended = record broker {
  raw = field "gcode_state" (str "FINISH") (field "layer_num" (num (pos 90)) end);
}

abbrev running : Fields
running = field "gcode_state" (str "RUNNING") (field "subtask_name" (str "gear") end)

another_job : is_boundary py running ended.raw ≡ true
unfolding is_boundary text text_of member Dict.lookup upper strip_text lstrip_text reverse_text
    new_broker
another_job = refl

nothing_waits : forgets py running ended ≡ true
unfolding forgets new_broker
nothing_waits = refl

update-without_history_example :
    update py 5 running ended ≡ update py 5 running (without_history ended)
update-without_history_example = update-without_history py 5 running ended another_job nothing_waits

Step-sequence_example :
    ((update py 5 running broker).snapshot ≡ broker.snapshot)
    ⊎ (broker.snapshot.sequence < (update py 5 running broker).snapshot.sequence)
Step-sequence_example =
    Step-sequence py "p1" true broker (update py 5 running broker) here (updates 5 running)

abbrev registered_key : String
registered_key = source_key py (1 ∷ 2 ∷ []) "gear.3mf" (pos 1)

abbrev layers : List (ℕ × Fields)
layers = (6, layer_report) ∷ []

abbrev registered : Broker
registered = (register_source py 5 (1 ∷ 2 ∷ []) "gear.3mf" (pos 1) none broker).1

layers_of_the_job : same_job py layers registered ≡ true
unfolding same_job is_boundary text text_of member Dict.lookup upper strip_text lstrip_text
    reverse_text new_broker register_source build_snapshot put name_identity lower id_changed
    id_stable
layers_of_the_job = refl

register_source-source_for_example :
    source_for registered_key (update_all py layers registered)
    ≡ some (new_source registered_key (1 ∷ 2 ∷ []) "gear.3mf" (pos 1) none)
unfolding show_int register_source
register_source-source_for_example =
    register_source-source_for py 5 (1 ∷ 2 ∷ []) "gear.3mf" (pos 1) none broker layers
      layers_of_the_job

abbrev hub : Feed
hub = new_feed broker 32 (some 4)

abbrev entering : Feed
entering = run_acquire 1 (some 4) (begin_subscribe 1 hub)

enters : Feed.Reaches py hub entering
unfolding begin_subscribe Dict.lookup Dict.insert
enters = Feed.later (Feed.later Feed.here (begins 1 refl)) (acquires 1 (some 4) refl)

Reaches-leases_example :
    (times_acquired 4 entering.calls
      ≡ times_released 4 entering.calls + total (leases_held (some 4) 4) entering.tasks)
    × (times_released 4 entering.calls + subscriber_count entering
        ≤ times_acquired 4 entering.calls)
Reaches-leases_example = Reaches-leases py broker 32 4 entering enters

-- A connection that is replaced between the `acquire` of a task and its registration stays leased,
-- and the task releases the new one, which it has not leased.
abbrev replaced : Feed
replaced = run_release 1 (some 5) (
    read_release 1
      (drop_subscriber 1 (add_subscriber 1 (set_connection_lease (some 5) (some 5) entering))))

replaced_calls : (replaced.calls ≡ released 5 ∷ acquired 4 ∷ []) × (replaced.transfers ≡ [])
unfolding run_release read_release drop_subscriber add_subscriber set_connection_lease run_acquire
    begin_subscribe subscriber_count total call_times Dict.insert
replaced_calls = (refl, refl)

-- The printer reports the registered file without its extension, after another print has ended.
abbrev renamed : Broker
renamed = update py 6 running (register_source py 5 (1 ∷ 2 ∷ []) "gear.3mf" (pos 1) none ended).1

announced_not_served :
    (renamed.snapshot.job_key ≡ some registered_key)
    × (renamed.snapshot.source.available ≡ true)
    × (source_for registered_key renamed ≡ none)
unfolding update build_snapshot snapshot_of choose_key derive_job_key is_boundary upper text member
    Dict.lookup strip_text text_of register_source put reset_job forgets find_source take_reported
    Dict.insert truthy lower lstrip_text reverse_text show_int show_nat show_digits state_in
    status_with source_status take_pending id_changed id_stable empty_snapshot merge name_identity
    source_for new_broker
announced_not_served = (refl, refl, refl)
