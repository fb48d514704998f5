-- ===== src/PrinterService/Tests.antt =====
-- Sample answers of the relay, and a reload of two printers.
use bambu_gateway.Prelude.{
  List, string_eq, none, ℕ, zero, suc, ◌≡◌, ◌≤◌, refl, String, [], ◌∷◌, ◌==◌,
}
use bambu_gateway.Prelude.Int.{ℤ, pos, negsuc, int_eq}
use bambu_gateway.Prelude.Dict
use bambu_gateway.ConfigStore.{PrinterConfig}
use bambu_gateway.PrinterService.{cloud_relay_publish}
use bambu_gateway.PrinterService.Relay.{accepted, cloud_relay_publish-accepted}
use bambu_gateway.PrinterService.Sync.Steps.{Serves}
use bambu_gateway.PrinterService.Sync.Follows.{sync_printers-Serves}
use bambu_gateway.PrinterService.Sync.{
  Service, made, keys_of, sync_printers, sync_serials, by_serial, remove_printer, add_printer,
  reset_printer, keep_printer,
}

-- The channel settles at the third attempt.
abbrev answer : ℕ → ℤ
answer zero = negsuc 1
answer (suc zero) = negsuc 1
answer (suc (suc n)) = pos 0

cloud_relay_publish-accepted_example :
    ((cloud_relay_publish answer 4).1 ≤ 4)
    × (((cloud_relay_publish answer 4).0 == pos 0) ≡ accepted answer 4 0)
cloud_relay_publish-accepted_example = cloud_relay_publish-accepted answer 4

abbrev printer_at : String → String → PrinterConfig
printer_at serial ip = record {
  ip = ip;
  access_code = "12345678";
  serial = serial;
  name = "";
  machine_model = "A1";
  default_plate_type = "";
}

abbrev empty : Service
empty = record { configs = []; clients = []; stopped = []; next_number = 0 }

abbrev reloaded : Service
reloaded =
    sync_printers (printer_at "B" "10.0.0.9" ∷ printer_at "C" "10.0.0.3" ∷ [])
      (sync_printers (printer_at "A" "10.0.0.1" ∷ printer_at "B" "10.0.0.2" ∷ []) empty)

abbrev two : Service
two = record {
  configs = ("A", printer_at "A" "10.0.0.1") ∷ ("B", printer_at "B" "10.0.0.2") ∷ [];
  clients =
      ("A", made 0 (printer_at "A" "10.0.0.1")) ∷ ("B", made 1 (printer_at "B" "10.0.0.2")) ∷ [];
  stopped = [];
  next_number = 2;
}

abbrev new_list : List PrinterConfig
new_list = printer_at "B" "10.0.0.9" ∷ printer_at "C" "10.0.0.3" ∷ []

known_b : Dict.lookup "B" two.configs ≡ none → Dict.lookup "B" two.clients ≡ none
unfolding Dict.lookup
known_b h = cc

sync_printers-Serves_example :
    (Dict.lookup "B" (sync_printers new_list two).configs ≡ Dict.lookup "B" (by_serial new_list []))
    × Serves
        (Dict.lookup "B" two.configs)
        (Dict.lookup "B" (by_serial new_list []))
        (Dict.lookup "B" two.clients)
        (Dict.lookup "B" (sync_printers new_list two).clients)
sync_printers-Serves_example = sync_printers-Serves new_list two "B" known_b

reloaded_keys : keys_of reloaded.clients ≡ "B" ∷ "C" ∷ []
unfolding sync_printers sync_serials by_serial remove_printer add_printer reset_printer keep_printer
    Dict.insert Dict.lookup Dict.remove
reloaded_keys = refl

reloaded_stopped : reloaded.stopped ≡ 1 ∷ 0 ∷ []
unfolding sync_printers sync_serials by_serial remove_printer add_printer reset_printer keep_printer
    Dict.insert Dict.lookup Dict.remove
reloaded_stopped = refl
