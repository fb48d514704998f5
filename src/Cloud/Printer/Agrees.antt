-- ===== src/Cloud/Printer/Agrees.antt =====
-- The two ways to a printer: its own MQTT connection and the cloud's relay.
use mathlib.Core.Path.{◌≡◌, refl, sym, ap, ◌∙◌, fun_ext}
use bambu_gateway.Prelude.{ℕ, ◌≤◌, String, Bool, true, Option, none, some, [], ◌∷◌, arith}
use bambu_gateway.Prelude.Json.{Fields, member}
use bambu_gateway.Mqtt.Report.{
  Live, on_status, Change, run, on_key, set_stage, set_supported, apply_job, set_hms, present,
}
use bambu_gateway.Mqtt.Apply.{
  Builtins, Holds, PayloadEnd, applied, failed, ill_typed, ends_with, apply_with,
  apply_print_payload, refill_part, speed_part, temperature_changes, put_error, finish_report,
  new_gcode_state,
}
use bambu_gateway.Mqtt.Ams.{AmsReport, Ack, parse_ams_report, extract_command_ack}
use bambu_gateway.Mqtt.Client
use bambu_gateway.Mqtt.Client.{
  Client, UpdateEnd, record_ack, apply_ams, schedule_disconnect, apply_rest, after_payload,
  update_status,
}
use bambu_gateway.Cloud.Printer.{
  CloudClient, put_ack, EventEnd, updated, uncaught, untyped_field, take_ams, reader_of, with_ams,
  after_report, holds_of, handle_report,
}

-- The state that the two clients share.
abbrev pub as_cloud : String → Client → CloudClient
as_cloud dev_id c = record {
  dev_id = dev_id;
  live = c.live;
  gcode_state = c.gcode_state;
  ams_trays = c.ams_trays;
  ams_units = c.ams_units;
  vt_tray = c.vt_tray;
  ams_module_types = c.ams_module_types;
  command_acks = c.command_acks;
  speed_hold_until = c.speed_hold_until;
}

unfoldable pub end_as_cloud : String → UpdateEnd → EventEnd
end_as_cloud dev_id (Client.updated before c) = updated before (as_cloud dev_id c)
end_as_cloud dev_id (Client.uncaught c) = uncaught (as_cloud dev_id c)
end_as_cloud dev_id (Client.untyped_field c) = untyped_field (as_cloud dev_id c)

acked_same :
    (id : String) (o : Option Ack) (c : Client)
    → as_cloud id (record_ack o c)
      ≡ record (as_cloud id c) { command_acks = put_ack o c.command_acks }
unfolding record_ack
acked_same id none c = refl
acked_same id (some ack) c = refl

rest_case :
    (id : String) (light : Option Bool) (before : Live) (c : Client) (o : Option AmsReport)
    → end_as_cloud id (elim o [
      | none ↦ Client.uncaught (record c { chamber_light_on = light })
      | some rep ↦
          Client.updated before
            (record (schedule_disconnect (apply_ams rep (record c { chamber_light_on = light }))) {
              data_ready = true;
            })
    ])
      ≡ elim o [
        | none ↦ uncaught (as_cloud id c)
        | some rep ↦ updated before (take_ams rep (as_cloud id c))
      ]
unfolding end_as_cloud apply_ams schedule_disconnect take_ams
rest_case id light before c none = refl
rest_case id light before c (some rep) = refl

rest_same :
    (id : String) (py : Builtins) (fs : Fields) (before : Live) (c : Client)
    → end_as_cloud id (apply_rest py fs before c) ≡ with_ams py fs before (as_cloud id c)
unfolding apply_rest
rest_same id py fs before c =
    rest_case id (Client.lights_report (member "lights_report" fs) c.chamber_light_on) before c
      (parse_ams_report (reader_of py (as_cloud id c)) fs)

payload_same :
    (id : String) (py : Builtins) (fs : Fields) (before : Live) (c : Client) (end : PayloadEnd)
    → end_as_cloud id (after_payload py fs before c end)
      ≡ after_report py fs before (as_cloud id c) end
unfolding end_as_cloud
payload_same id py fs before c (applied l g) = rest_same id py fs before _
payload_same id py fs before c (failed l) = refl
payload_same id py fs before c (ill_typed l) = refl

refill_same :
    (h h' : Holds) (fs : Fields) (l : Live)
    → h.refill_until ≤ h.now
    → h'.refill_until ≤ h'.now
    → refill_part h fs l ≡ refill_part h' fs l
unfolding refill_part
refill_same h h' fs l e f = ground arith

-- The report with a given part for the automatic refill.
abbrev apply_using : Builtins → Holds → String → Fields → Live → Change → PayloadEnd
apply_using py h old fs l refill = elim (new_gcode_state old (present (member "gcode_state" fs))) [
  | none ↦ ill_typed l
  | some g ↦ ends_with g (
      run
        (run (
            on_key "stg_cur" fs set_stage
            ∷ speed_part h fs
            ∷ on_key "support_filament_backup" fs set_supported
            ∷ refill
            ∷ [])
          ∷ run (temperature_changes py.float_of fs)
          ∷ apply_job py.text_of fs
          ∷ on_key "hms" fs set_hms
          ∷ put_error fs
          ∷ finish_report py.descriptions g fs
          ∷ [])
        l)
]

using_own :
    (py : Builtins) (h : Holds) (old : String) (fs : Fields) (l : Live)
    → apply_print_payload py h old fs l ≡ apply_using py h old fs l (refill_part h fs)
unfolding apply_print_payload apply_with
using_own py h old fs l = refl

-- The hold-offs of the refill do not matter once they are over.
payload_alike :
    (py : Builtins) (now speed_until refill_until : ℕ) (old : String) (fs : Fields) (l : Live)
    → refill_until ≤ now
    → apply_print_payload py
        (record { now = now; speed_until = speed_until; refill_until = refill_until })
        old
        fs
        l
      ≡ apply_print_payload py
          (record { now = now; speed_until = speed_until; refill_until = 0 })
          old
          fs
          l
unfolding speed_part
payload_alike py now speed_until refill_until old fs l e =
    let h : Holds = record { now = now; speed_until = speed_until; refill_until = refill_until } in
    let h' : Holds = record { now = now; speed_until = speed_until; refill_until = 0 } in
    using_own py h old fs l
    ∙ ap (apply_using py h' old fs l) (fun_ext (λ k. refill_same h h' fs k e (omega arith)))
    ∙ sym (using_own py h' old fs l)

refill_hold-record_ack :
    (o : Option Ack) (c : Client) → (record_ack o c).refill_hold_until ≡ c.refill_hold_until
unfolding record_ack
refill_hold-record_ack none c = refl
refill_hold-record_ack (some ack) c = refl

online_again :
    (l : Live) → l.status.online ≡ true → l ≡ on_status (λ s. record s { online = true }) l
online_again l e = ap (λ b. on_status (λ s. record s { online = b }) l) e

-- A report that comes through the cloud and the same report from the printer's own connection leave
-- the same status, G-code state, AMS, acknowledgments and callbacks, and fail alike: for a printer
-- that is online, once the hold-off of the automatic refill is over.
pub handle_report-update_status :
    (dev_id : String) (py : Builtins) (now : ℕ) (fs : Fields) (c : Client)
    → c.live.status.online ≡ true
    → c.refill_hold_until ≤ now
    → end_as_cloud dev_id (update_status py now fs c) ≡ handle_report py now fs (as_cloud dev_id c)
unfolding update_status handle_report
handle_report-update_status id py now fs c online over =
    payload_same id py fs c.live c' _
    ∙ ap (after_report py fs c.live (as_cloud id c')) (
        payload_alike py now c'.speed_hold_until c'.refill_hold_until c'.gcode_state fs c'.live
          (omega (arith, over, refill_hold-record_ack ack c)))
    ∙ ap result (
        acked_same id ack c
        ∙ ap (λ l. record (as_cloud id c) { command_acks = put_ack ack c.command_acks; live = l })
            (online_again c.live online))
  where
    ack : Option Ack
    ack = extract_command_ack py.text_of fs

    c' : Client
    c' = record_ack ack c

    result : CloudClient → EventEnd
    result d =
        after_report py fs c.live d
          (apply_print_payload py (holds_of now d) d.gcode_state fs d.live)
