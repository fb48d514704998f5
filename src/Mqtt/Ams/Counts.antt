-- ===== src/Mqtt/Ams/Counts.antt =====
-- The trays and units of a report are those of the payload.
use bambu_gateway.Prelude.{◌≡◌, Option, some, List, string_eq}
use bambu_gateway.Prelude.Json.{Json}
use bambu_gateway.Mqtt.Ams.{Tray, AmsUnit}
use bambu_gateway.Mqtt.Ams.Payload.{Reads}

-- What the rest of the units gives.
abbrev AllRead : List Json → Option (List AmsUnit × List Tray) → Type 0
AllRead js more = (us : List AmsUnit) (ts : List Tray) → more ≡ some (us, ts) → Reads js us ts
