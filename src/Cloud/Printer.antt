-- ===== src/Cloud/Printer.antt =====
-- `CloudPrinterClient` of app/cloud/cloud_printer.py: its state, and `handle_event`.
pub mod Agrees
use bambu_gateway.Prelude.{
  ℕ, ◌+◌, String, Bool, true, false, Option, none, some, List, [], ◌∷◌, if◌then◌else◌, ◌==◌,
  string_eq,
}
use bambu_gateway.Prelude.Int.{ℤ}
use bambu_gateway.Prelude.Json.{
  Json, null, bool, num, decimal, str, arr, obj, Fields, member, truthy,
}
use bambu_gateway.Prelude.Dict
use bambu_gateway.Prelude.Dict.{Dict}
use bambu_gateway.Mqtt.Report.{Live, on_status}
use bambu_gateway.Mqtt.Apply.{
  Builtins, Holds, PayloadEnd, applied, failed, ill_typed, apply_print_payload,
}
use bambu_gateway.Mqtt.AmsType.{AmsType, parse_ams_module_types}
use bambu_gateway.Mqtt.Ams.{
  Tray, AmsUnit, AmsReport, Reader, parse_ams_report, Ack, extract_command_ack,
}
use bambu_gateway.Mqtt.Client.{put_active, put_vt_tray, update_types, is_version, speed_level_hold}

pub record CloudClient : Type 0 where
  pub dev_id : String
  pub live : Live
  pub gcode_state : String
  pub ams_trays : List Tray
  pub ams_units : List AmsUnit
  pub vt_tray : Option Tray
  pub ams_module_types : Dict ℤ AmsType
  pub command_acks : Dict String Ack
  pub speed_hold_until : ℕ

unfoldable pub hold_speed : ℕ → ℤ → CloudClient → CloudClient
hold_speed now level c = record c {
  live = on_status (λ s. record s { speed_level = level }) c.live;
  speed_hold_until = now + speed_level_hold;
}

unfoldable pub release_speed : CloudClient → CloudClient
release_speed c = record c { speed_hold_until = 0 }

abbrev pub put_ack : Option Ack → Dict String Ack → Dict String Ack
put_ack none acks = acks
put_ack (some ack) acks = Dict.insert ack.command ack acks

-- As in the MQTT client: what an exception leaves, and a value of another type in a text's field.
pub data EventEnd : Type 0 where
  ignored : CloudClient → EventEnd
  updated : Live → CloudClient → EventEnd
  uncaught untyped_field : CloudClient → EventEnd

unfoldable pub take_ams : AmsReport → CloudClient → CloudClient
take_ams rep c = record c {
  live = put_active rep.active_tray c.live;
  ams_trays = if rep.ams_present then rep.trays else c.ams_trays;
  ams_units = if rep.ams_present then rep.units else c.ams_units;
  vt_tray = put_vt_tray rep.vt_tray c.vt_tray;
}

abbrev reader_of : Builtins → CloudClient → Reader
reader_of py c = record {
  float_of = py.float_of;
  text_of = py.text_of;
  module_types = c.ams_module_types;
}

abbrev pub with_ams : Builtins → Fields → Live → CloudClient → EventEnd
with_ams py fs before c = elim (parse_ams_report (reader_of py c) fs) [
  | none ↦ uncaught c
  | some rep ↦ updated before (take_ams rep c)
]

abbrev pub after_report : Builtins → Fields → Live → CloudClient → PayloadEnd → EventEnd
after_report py fs before c (applied l g) =
    with_ams py fs before (record c { live = l; gcode_state = g })
after_report py fs before c (failed l) = uncaught (record c { live = l })
after_report py fs before c (ill_typed l) = untyped_field (record c { live = l })

-- A report means that the printer is online; the hold-off of the refill is never given.
abbrev pub acked : Builtins → Fields → CloudClient → CloudClient
acked py fs c = record c {
  command_acks = put_ack (extract_command_ack py.text_of fs) c.command_acks;
  live = on_status (λ s. record s { online = true }) c.live;
}

abbrev pub holds_of : ℕ → CloudClient → Holds
holds_of now c = record { now = now; speed_until = c.speed_hold_until; refill_until = 0 }

unfoldable pub handle_report : Builtins → ℕ → Fields → CloudClient → EventEnd
handle_report py now fs c =
    let c' = acked py fs c in
    after_report py fs c.live c'
      (apply_print_payload py (holds_of now c') c'.gcode_state fs c'.live)

abbrev print_part : Builtins → ℕ → Option Json → CloudClient → EventEnd
print_part py now none c = ignored c
print_part py now (some (obj fs)) c =
    if truthy (obj fs) then handle_report py now fs c else ignored c
print_part py now (some j) c = if truthy j then uncaught c else ignored c

unfoldable pub handle_version : Fields → CloudClient → EventEnd
handle_version info c = elim (parse_ams_module_types info) [
  | none ↦ uncaught c
  | some types ↦ ignored (record c { ams_module_types = update_types types c.ams_module_types })
]

-- An answer to get_version has no report.
abbrev message_of : Builtins → ℕ → Fields → Option Json → CloudClient → EventEnd
message_of py now fs (some (obj info)) c =
    if is_version info then handle_version info c else print_part py now (member "print" fs) c
message_of py now fs _ c = print_part py now (member "print" fs) c

-- The event's device and kind, and its payload as `json.loads` has it: `none` is no JSON.
unfoldable pub handle_event : Builtins → ℕ → String → String → Option Json → CloudClient → EventEnd
handle_event py now dev_id kind none c = ignored c
handle_event py now dev_id kind (some j) c =
    if dev_id == c.dev_id
    then (if kind == "OnMessage"
        then (elim j [ obj fs ↦ message_of py now fs (member "info" fs) c | _ ↦ uncaught c ])
        else ignored c)
    else ignored c
