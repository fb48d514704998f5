-- ===== src/Mqtt/Client.antt =====
-- `BambuMQTTClient` of app/mqtt_client.py: the attributes that its lock guards, and the sections
-- that hold the lock. `armed` is a live timer in `_disconnect_timer`: one that has run cannot be
-- cancelled any more. The paho client is the number of the `start` call that made it; the times are
-- readings of the monotonic clock in milliseconds.
pub mod Threads
pub mod Sections
pub mod Idle
pub mod Leases
mod Tests
use bambu_gateway.Prelude.{
  ℕ, zero, suc, ◌+◌, ◌-◌, String, Bool, true, false, not, ◌&&◌, Option, none, some, List, [], ◌∷◌,
  if◌then◌else◌, nat_beq, ◌==◌, string_eq,
}
use bambu_gateway.Prelude.Int.{ℤ, pos, negsuc, int_eq}
use bambu_gateway.Prelude.Json.{
  Json, null, bool, num, decimal, str, arr, obj, Items, Fields, end, elements, member, truthy,
}
use bambu_gateway.Prelude.Show.{lower, reverse_text, ◌<>◌}
use bambu_gateway.Prelude.Dict
use bambu_gateway.Prelude.Dict.{Dict}
use bambu_gateway.ConfigStore.{PrinterConfig}
use bambu_gateway.Printer.{PrinterState, offline, PrinterStatus}
use bambu_gateway.Mqtt.Report.{Real, Live, on_status}
use bambu_gateway.Mqtt.Apply.{
  Builtins, Holds, PayloadEnd, applied, failed, ill_typed, apply_print_payload,
}
use bambu_gateway.Mqtt.AmsType.{AmsType, parse_ams_module_types}
use bambu_gateway.Mqtt.Ams.{
  Tray, VtTray, absent, cleared, given, AmsUnit, AmsReport, Reader, parse_ams_report, Ack,
  extract_command_ack,
}

pub record Client : Type 0 where
  pub client : Option ℕ
  pub live : Live
  pub gcode_state : String
  pub ams_trays : List Tray
  pub ams_units : List AmsUnit
  pub vt_tray : Option Tray
  pub ams_module_types : Dict ℤ AmsType
  pub chamber_light_on : Option Bool
  pub command_acks : Dict String Ack
  pub armed : Bool
  pub connection_leases : ℕ
  pub data_ready : Bool
  pub refill_hold_until : ℕ
  pub speed_hold_until : ℕ

abbrev start_of : ℕ → String → String
start_of zero s = ""
start_of (suc n) s = elim s [ String.[] ↦ "" | String.◌∷◌ c rest ↦ String.◌∷◌ c (start_of n rest) ]

-- `text[-n:]`.
abbrev pub end_of : ℕ → String → String
end_of n s = reverse_text (start_of n (reverse_text s "")) ""

unfoldable pub new_status : PrinterConfig → PrinterStatus
new_status config = record {
  id = config.serial;
  name = if config.name == "" then "Printer " <> end_of 4 config.serial else config.name;
  machine_model = config.machine_model;
  default_plate_type = config.default_plate_type;
  online = false;
  state = offline;
  stg_cur = negsuc 0;
  stage_name = none;
  stage_category = none;
  speed_level = pos 0;
  active_tray = none;
  job = none;
  hms_codes = [];
  print_error = pos 0;
  error_message = none;
}

abbrev no_heat : Real
no_heat = (pos 0, 0)

unfoldable pub new_client : PrinterConfig → Client
new_client config = record {
  client = none;
  live = record {
    status = new_status config;
    nozzle_temp = no_heat;
    nozzle_target = no_heat;
    bed_temp = no_heat;
    bed_target = no_heat;
    ams_auto_refill_supported = none;
    ams_auto_refill_enabled = none;
  };
  gcode_state = "IDLE";
  ams_trays = [];
  ams_units = [];
  vt_tray = none;
  ams_module_types = [];
  chamber_light_on = none;
  command_acks = [];
  armed = false;
  connection_leases = 0;
  data_ready = false;
  refill_hold_until = 0;
  speed_hold_until = 0;
}

abbrev pub speed_level_hold : ℕ
speed_level_hold = 3000

abbrev pub refill_hold : ℕ
refill_hold = 3000

unfoldable pub cancel_timer : Client → Client
cancel_timer c = record c { armed = false }

abbrev pub has_client : Client → Bool
has_client c = elim c.client [ none ↦ false | some _ ↦ true ]

unfoldable pub schedule_disconnect : Client → Client
schedule_disconnect c = record c { armed = has_client c && nat_beq c.connection_leases 0 }

-- The section of `acquire_connection_lease`, which calls `ensure_connected` after it.
unfoldable pub acquire_lease : Client → Client
unfolding cancel_timer
acquire_lease c = cancel_timer (record c { connection_leases = c.connection_leases + 1 })

unfoldable pub release_lease : Client → Client
release_lease c =
    let left = record c { connection_leases = c.connection_leases - 1 } in
    if nat_beq left.connection_leases 0 then schedule_disconnect left else left

unfoldable pub go_offline : Client → Client
go_offline c = record c {
  live = on_status (λ s. record s { online = false; state = offline }) c.live;
}

-- The first section of `stop`, which keeps the client that it has taken.
unfoldable pub take_client : Client → Client
take_client c = record (cancel_timer c) { client = none }

-- `_on_connect`: a result code of 0 or another one.
unfoldable pub on_connect : Bool → Client → Client
on_connect true c =
    schedule_disconnect (record c { live = on_status (λ s. record s { online = true }) c.live })
on_connect false c = go_offline c

unfoldable pub apply_optimistic_speed : ℕ → ℤ → Client → Client
apply_optimistic_speed now level c = record c {
  live = on_status (λ s. record s { speed_level = level }) c.live;
  speed_hold_until = now + speed_level_hold;
}

unfoldable pub clear_speed_hold : Client → Client
clear_speed_hold c = record c { speed_hold_until = 0 }

-- The section of `send_ams_auto_refill`.
unfoldable pub hold_refill : ℕ → Bool → Client → Client
hold_refill now enabled c = record c {
  live = record c.live { ams_auto_refill_enabled = some enabled };
  refill_hold_until = now + refill_hold;
}

-- A key of a dict that is there keeps its place.
unfoldable pub update_types : Dict ℤ AmsType → Dict ℤ AmsType → Dict ℤ AmsType
update_types [] types = types
update_types ((k, t) ∷ rest) types = update_types rest (Dict.insert k t types)

-- The `none` of a value that Python cannot walk.
unfoldable pub parse_version_modules : Fields → Client → Option Client
parse_version_modules info c = elim (parse_ams_module_types info) [
  | none ↦ none
  | some types ↦ some (record c { ams_module_types = update_types types c.ams_module_types })
]

unfoldable pub record_ack : Option Ack → Client → Client
record_ack none c = c
record_ack (some ack) c = record c { command_acks = Dict.insert ack.command ack c.command_acks }

abbrev light_of : Option Json → Option Json → Option Bool → Option Bool
light_of (some (str node)) (some (str mode)) now =
    if node == "chamber_light" then some (not (lower mode == "off")) else now
light_of _ _ now = now

unfoldable pub read_lights : List Json → Option Bool → Option Bool
read_lights [] now = now
read_lights (obj fs ∷ js) now = read_lights js (light_of (member "node" fs) (member "mode" fs) now)
read_lights (_ ∷ js) now = read_lights js now

unfoldable pub lights_report : Option Json → Option Bool → Option Bool
lights_report (some (arr js)) now = read_lights (elements js) now
lights_report _ now = now

abbrev pub put_active : Option (Option ℤ) → Live → Live
put_active none l = l
put_active (some tray) l = on_status (λ s. record s { active_tray = tray }) l

abbrev pub put_vt_tray : VtTray → Option Tray → Option Tray
put_vt_tray absent old = old
put_vt_tray cleared old = none
put_vt_tray (given t) old = some t

-- A report without AMS data, active tray or external spool keeps the ones of before.
unfoldable pub apply_ams : AmsReport → Client → Client
apply_ams rep c = record c {
  live = put_active rep.active_tray c.live;
  ams_trays = if rep.ams_present then rep.trays else c.ams_trays;
  ams_units = if rep.ams_present then rep.units else c.ams_units;
  vt_tray = put_vt_tray rep.vt_tray c.vt_tray;
}

-- `updated` has the status of before, for the callback; an exception leaves what was written
-- before it.
pub data UpdateEnd : Type 0 where
  updated : Live → Client → UpdateEnd
  uncaught untyped_field : Client → UpdateEnd

abbrev pub reader_of : Builtins → Client → Reader
reader_of py c = record {
  float_of = py.float_of;
  text_of = py.text_of;
  module_types = c.ams_module_types;
}

-- From the lights on: the end of the section, and the event that is set after it.
unfoldable pub apply_rest : Builtins → Fields → Live → Client → UpdateEnd
apply_rest py fs before c =
    let lit = record c {
      chamber_light_on = lights_report (member "lights_report" fs) c.chamber_light_on;
    } in
    elim (parse_ams_report (reader_of py lit) fs) [
      | none ↦ uncaught lit
      | some rep ↦
          updated before (record (schedule_disconnect (apply_ams rep lit)) { data_ready = true })
    ]

abbrev pub holds_at : ℕ → Client → Holds
holds_at now c = record {
  now = now;
  speed_until = c.speed_hold_until;
  refill_until = c.refill_hold_until;
}

abbrev pub after_payload : Builtins → Fields → Live → Client → PayloadEnd → UpdateEnd
after_payload py fs before c (applied l g) =
    apply_rest py fs before (record c { live = l; gcode_state = g })
after_payload py fs before c (failed l) = uncaught (record c { live = l })
after_payload py fs before c (ill_typed l) = untyped_field (record c { live = l })

unfoldable pub update_status : Builtins → ℕ → Fields → Client → UpdateEnd
update_status py now fs c =
    let acked = record_ack (extract_command_ack py.text_of fs) c in
    after_payload py fs c.live acked
      (apply_print_payload py (holds_at now acked) acked.gcode_state fs acked.live)

abbrev pub is_version : Fields → Bool
is_version info = elim (member "command" info) [
  | none ↦ false
  | some (str name) ↦ name == "get_version"
  | some _ ↦ false
]

-- `ignored` is a message without a print report; a value of the wrong shape has no `get`.
pub data MessageEnd : Type 0 where
  ignored : Client → MessageEnd
  handled : UpdateEnd → MessageEnd

abbrev pub report_part : Builtins → ℕ → Option Json → Client → MessageEnd
report_part py now none c = ignored c
report_part py now (some (obj fs)) c =
    if truthy (obj fs) then handled (update_status py now fs c) else ignored c
report_part py now (some j) c = if truthy j then handled (uncaught c) else ignored c

abbrev pub info_part : Option Json → Client → Option Client
info_part none c = some c
info_part (some (obj info)) c =
    if truthy (obj info) && is_version info then parse_version_modules info c else some c
info_part (some j) c = if truthy j then none else some c

-- `none` is a payload that is no JSON.
unfoldable pub on_message : Builtins → ℕ → Option Json → Client → MessageEnd
on_message py now none c = ignored c
on_message py now (some (obj fs)) c = elim (info_part (member "info" fs) c) [
  | none ↦ handled (uncaught c)
  | some c' ↦ report_part py now (member "print" fs) c'
]
on_message py now (some _) c = handled (uncaught c)
