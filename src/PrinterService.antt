-- ===== src/PrinterService.antt =====
-- The commands of app/printer_service.py: the ones that need a client of the printer's own
-- connection, and `send_command_envelope` with its retries over the cloud's relay.
pub mod Relay
pub mod Sync
mod Tests
use bambu_gateway.Prelude.{
  ℕ, zero, suc, String, Bool, true, false, Option, none, some, List, [], ◌∷◌, if◌then◌else◌, ◌==◌,
  nat_eq,
}
use bambu_gateway.Prelude.Int.{ℤ, pos, negsuc, int_eq}
use bambu_gateway.Prelude.Json.{Json}
use bambu_gateway.Mqtt.Commands.{
  build_pause_command, build_resume_command, build_cancel_command, build_speed_command,
  build_light_command, build_ams_start_drying_command, build_ams_stop_drying_command,
  build_ams_auto_refill_command,
}

-- The envelope is sent, or a ValueError or a ConnectionError is raised.
pub data CommandEnd : Type 0 where
  sent : Json → CommandEnd
  not_found unreachable : CommandEnd

-- The client of the printer, and whether it is online after `ensure_connected`.
abbrev pub Link : Type 0
Link = Option Bool

unfoldable pub guarded : Json → Link → CommandEnd
guarded envelope none = not_found
guarded envelope (some online) = if online then sent envelope else unreachable

-- Each is given the next sequence id, which is taken only when the command is built.
unfoldable pub pause_print : ℕ → Link → CommandEnd
pause_print seq link = guarded (build_pause_command seq) link

unfoldable pub resume_print : ℕ → Link → CommandEnd
resume_print seq link = guarded (build_resume_command seq) link

unfoldable pub cancel_print : ℕ → Link → CommandEnd
cancel_print seq link = guarded (build_cancel_command seq) link

unfoldable pub set_print_speed : ℕ → ℤ → Link → CommandEnd
set_print_speed seq level link = guarded (build_speed_command seq level) link

unfoldable pub set_chamber_light : ℕ → Bool → String → Link → CommandEnd
set_chamber_light seq on node link = guarded (build_light_command seq on node) link

unfoldable pub start_drying : ℕ → ℤ → ℤ → ℕ → Link → CommandEnd
start_drying seq ams_id temperature duration_minutes link =
    guarded (build_ams_start_drying_command seq ams_id temperature duration_minutes) link

unfoldable pub stop_drying : ℕ → ℤ → Link → CommandEnd
stop_drying seq ams_id link = guarded (build_ams_stop_drying_command seq ams_id) link

unfoldable pub set_ams_auto_refill : ℕ → Bool → Link → CommandEnd
set_ams_auto_refill seq enabled link = guarded (build_ams_auto_refill_command seq enabled) link

-- What `send_message` returns at each attempt.
abbrev pub Host : Type 0
Host = ℕ → ℤ

-- The attempts that are left, the number of those before, and the last return code.
unfoldable pub relay_from : Host → ℕ → ℕ → ℤ → ℤ × ℕ
relay_from host zero k rc = (rc, k)
relay_from host (suc left) k rc =
    let rest = relay_from host left (suc k) (host k) in
    if host k == pos 0 then (pos 0, suc k) else rest

-- The return code, and the number of messages.
unfoldable pub cloud_relay_publish : Host → ℕ → ℤ × ℕ
cloud_relay_publish host attempts = relay_from host attempts 0 (negsuc 0)

abbrev pub default_attempts : ℕ
default_attempts = 4

abbrev of_code : ℤ → Json → CommandEnd
of_code rc envelope = if rc == pos 0 then sent envelope else unreachable

-- In cloud mode: whether the printer is configured, and the host if there is one.
pub data Transport : Type 0 where
  cloud : Bool → Option Host → Transport
  lan : Link → Transport

unfoldable pub send_command_envelope : Json → Transport → CommandEnd
send_command_envelope envelope (cloud false host) = not_found
send_command_envelope envelope (cloud true none) = unreachable
send_command_envelope envelope (cloud true (some host)) =
    of_code (cloud_relay_publish host default_attempts).0 envelope
send_command_envelope envelope (lan link) = guarded envelope link
