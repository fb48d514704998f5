-- ===== src/Mqtt/Client/Sections.antt =====
-- What the sections that take no lease, start no client and stop none leave alone.
use bambu_gateway.Prelude.{
  ℕ, ◌≡◌, ◌⊎◌, inl, inr, refl, ◌∙◌, Bool, true, false, ◌&&◌, Option, none, some, if◌then◌else◌,
  nat_beq,
}
use bambu_gateway.Prelude.Int.{ℤ}
use bambu_gateway.Prelude.Json.{
  Json, null, bool, num, decimal, str, arr, obj, Fields, member, truthy,
}
use bambu_gateway.Mqtt.Report.{Live}
use bambu_gateway.Mqtt.Apply.{Builtins, PayloadEnd, applied, failed, ill_typed}
use bambu_gateway.Mqtt.Ams.{AmsReport, Ack, extract_command_ack}
use bambu_gateway.Mqtt.AmsType.{AmsType, parse_ams_module_types}
use bambu_gateway.Prelude.Dict.{Dict}
use bambu_gateway.Mqtt.Client.{
  Client, has_client, schedule_disconnect, go_offline, on_connect, apply_optimistic_speed,
  clear_speed_hold, hold_refill, parse_version_modules, record_ack, apply_ams, is_version,
  lights_report, update_types, updated, uncaught, apply_rest, after_payload, update_status,
  report_part, info_part, MessageEnd, ignored, handled, on_message,
}
use bambu_gateway.Mqtt.Client.Threads.{
  client_after, left_by, poll_once, Event, polled, connected, lost, message, speed,
  speed_acknowledged, refill, react,
}

-- The timer is as before, or has been set anew.
pub record SameLease (c c' : Client) : Type 0 where
  pub client : c'.client ≡ c.client
  pub leases : c'.connection_leases ≡ c.connection_leases
  pub timer : (c'.armed ≡ c.armed) ⊎ (c'.armed ≡ (has_client c && nat_beq c.connection_leases 0))

pub kept : (c : Client) → SameLease c c
kept c = record { client = refl; leases = refl; timer = inl refl }

pub schedule_disconnect-SameLease : (c : Client) → SameLease c (schedule_disconnect c)
unfolding schedule_disconnect
schedule_disconnect-SameLease c = record { client = refl; leases = refl; timer = inr refl }

pub go_offline-SameLease : (c : Client) → SameLease c (go_offline c)
unfolding go_offline
go_offline-SameLease c = record { client = refl; leases = refl; timer = inl refl }

poll_once-SameLease : (over : Bool) (c : Client) → SameLease c (poll_once over c)
unfolding poll_once
poll_once-SameLease true c = schedule_disconnect-SameLease c
poll_once-SameLease false c = by_status c.live.status.online
  where
    by_status : (b : Bool) → SameLease c (if b then schedule_disconnect c else c)
    by_status true = schedule_disconnect-SameLease c
    by_status false = kept c

on_connect-SameLease : (ok : Bool) (c : Client) → SameLease c (on_connect ok c)
unfolding on_connect schedule_disconnect
on_connect-SameLease true c = record { client = refl; leases = refl; timer = inr refl }
on_connect-SameLease false c = go_offline-SameLease c

one_then_another : (c c' c'' : Client) → SameLease c c' → SameLease c' c'' → SameLease c c''
one_then_another c c' c'' h k = record {
  client = k.client ∙ h.client;
  leases = k.leases ∙ h.leases;
  timer = by_timer k.timer h.timer;
}
  where
    by_timer :
        (c''.armed ≡ c'.armed) ⊎ (c''.armed ≡ (has_client c' && nat_beq c'.connection_leases 0))
        → (c'.armed ≡ c.armed) ⊎ (c'.armed ≡ (has_client c && nat_beq c.connection_leases 0))
        → (c''.armed ≡ c.armed) ⊎ (c''.armed ≡ (has_client c && nat_beq c.connection_leases 0))
    by_timer (inl e) (inl f) = inl (e ∙ f)
    by_timer (inl e) (inr f) = inr (e ∙ f)
    by_timer (inr e) _ = inr (rw (e, h.client, h.leases))

record_ack-SameLease : (o : Option Ack) (c : Client) → SameLease c (record_ack o c)
unfolding record_ack
record_ack-SameLease none c = kept c
record_ack-SameLease (some ack) c = record { client = refl; leases = refl; timer = inl refl }

abbrev lit : Option Bool → Client → Client
lit light c = record c { chamber_light_on = light }

ams_case :
    (o : Option AmsReport) (light : Option Bool) (before : Live) (c : Client)
    → SameLease c (
        client_after (elim o [
          | none ↦ uncaught (lit light c)
          | some rep ↦
              updated before
                (record (schedule_disconnect (apply_ams rep (lit light c))) { data_ready = true })
        ]))
unfolding schedule_disconnect apply_ams
ams_case none light before c = record { client = refl; leases = refl; timer = inl refl }
ams_case (some rep) light before c = record { client = refl; leases = refl; timer = inr refl }

apply_rest-SameLease :
    (py : Builtins) (fs : Fields) (before : Live) (c : Client)
    → SameLease c (client_after (apply_rest py fs before c))
unfolding apply_rest
apply_rest-SameLease py fs before c =
    ams_case _ (lights_report (member "lights_report" fs) c.chamber_light_on) before c

payload_case :
    (py : Builtins) (fs : Fields) (before : Live) (c : Client) (end : PayloadEnd)
    → SameLease c (client_after (after_payload py fs before c end))
payload_case py fs before c (applied l g) =
    one_then_another c (record c { live = l; gcode_state = g }) _
      (record { client = refl; leases = refl; timer = inl refl })
      (apply_rest-SameLease py fs before _)
payload_case py fs before c (failed l) = record { client = refl; leases = refl; timer = inl refl }
payload_case py fs before c (ill_typed l) = record {
  client = refl;
  leases = refl;
  timer = inl refl;
}

update_status-SameLease :
    (py : Builtins) (now : ℕ) (fs : Fields) (c : Client)
    → SameLease c (client_after (update_status py now fs c))
unfolding update_status
update_status-SameLease py now fs c =
    one_then_another c _ _ (record_ack-SameLease (extract_command_ack py.text_of fs) c)
      (payload_case py fs c.live _ _)

falsy_case :
    (b : Bool) (m : MessageEnd) (c : Client)
    → SameLease c (left_by m)
    → SameLease c (left_by (if b then m else ignored c))
falsy_case true m c h = h
falsy_case false m c h = kept c

report_case :
    (py : Builtins) (now : ℕ) (o : Option Json) (c : Client)
    → SameLease c (left_by (report_part py now o c))
report_case py now none c = kept c
report_case py now (some (obj fs)) c =
    falsy_case (truthy (obj fs)) (handled (update_status py now fs c)) c
      (update_status-SameLease py now fs c)
report_case py now (some null) c = falsy_case (truthy null) (handled (uncaught c)) c (kept c)
report_case py now (some (bool b)) c =
    falsy_case (truthy (bool b)) (handled (uncaught c)) c (kept c)
report_case py now (some (num n)) c = falsy_case (truthy (num n)) (handled (uncaught c)) c (kept c)
report_case py now (some (decimal m k)) c =
    falsy_case (truthy (decimal m k)) (handled (uncaught c)) c (kept c)
report_case py now (some (str s)) c = falsy_case (truthy (str s)) (handled (uncaught c)) c (kept c)
report_case py now (some (arr js)) c =
    falsy_case (truthy (arr js)) (handled (uncaught c)) c (kept c)

-- Only the module types are written before the report.
abbrev SameInfo : Client → Option Client → Type 0
SameInfo c none = Unit
SameInfo c (some c') = SameLease c c'

version_case : (info : Fields) (c : Client) → SameInfo c (parse_version_modules info c)
unfolding parse_version_modules
version_case info c = by_types (parse_ams_module_types info)
  where
    by_types :
        (o : Option (Dict ℤ AmsType))
        → SameInfo c (elim o [
          | none ↦ none
          | some types ↦
              some (record c { ams_module_types = update_types types c.ams_module_types })
        ])
    by_types none = tt
    by_types (some types) = record { client = refl; leases = refl; timer = inl refl }

if_case :
    (b : Bool) (o p : Option Client) (c : Client)
    → SameInfo c o
    → SameInfo c p
    → SameInfo c (if b then o else p)
if_case true o p c h k = h
if_case false o p c h k = k

wrong_case : (b : Bool) (c : Client) → SameInfo c (if b then none else some c)
wrong_case true c = tt
wrong_case false c = kept c

info_case : (o : Option Json) (c : Client) → SameInfo c (info_part o c)
info_case none c = kept c
info_case (some (obj info)) c =
    if_case (truthy (obj info) && is_version info) (parse_version_modules info c) (some c) c
      (version_case info c) (kept c)
info_case (some null) c = wrong_case (truthy null) c
info_case (some (bool b)) c = wrong_case (truthy (bool b)) c
info_case (some (num n)) c = wrong_case (truthy (num n)) c
info_case (some (decimal m k)) c = wrong_case (truthy (decimal m k)) c
info_case (some (str s)) c = wrong_case (truthy (str s)) c
info_case (some (arr js)) c = wrong_case (truthy (arr js)) c

message_case :
    (py : Builtins) (now : ℕ) (o : Option Json) (c : Client)
    → SameLease c (left_by (on_message py now o c))
unfolding on_message
message_case py now none c = kept c
message_case py now (some (obj fs)) c = by_info (info_part (member "info" fs) c) (info_case _ c)
  where
    by_info :
        (o : Option Client)
        → SameInfo c o
        → SameLease c (
            left_by (elim o [
              | none ↦ handled (uncaught c)
              | some c' ↦ report_part py now (member "print" fs) c'
            ]))
    by_info none h = kept c
    by_info (some c') h = one_then_another c c' _ h (report_case py now (member "print" fs) c')
message_case py now (some null) c = kept c
message_case py now (some (bool _)) c = kept c
message_case py now (some (num _)) c = kept c
message_case py now (some (decimal _ _)) c = kept c
message_case py now (some (str _)) c = kept c
message_case py now (some (arr _)) c = kept c

pub react-SameLease : (e : Event) (c : Client) → SameLease c (react e c)
unfolding react apply_optimistic_speed clear_speed_hold hold_refill
react-SameLease (polled over) c = poll_once-SameLease over c
react-SameLease (connected ok) c = on_connect-SameLease ok c
react-SameLease lost c = go_offline-SameLease c
react-SameLease (message py now payload) c = message_case py now payload c
react-SameLease (speed now level) c = record { client = refl; leases = refl; timer = inl refl }
react-SameLease speed_acknowledged c = record { client = refl; leases = refl; timer = inl refl }
react-SameLease (refill now enabled) c = record { client = refl; leases = refl; timer = inl refl }
