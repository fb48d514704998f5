-- ===== src/PrinterService/Sync.antt =====
-- `sync_printers` of app/printer_service.py outside cloud mode: the printers that are served follow
-- a new list of configurations. A client is the number of its making, with the configuration it was
-- made of and the name that it shows. The sets of serials are walked in the order of their lists.
-- The brokers, the camera proxies and the callbacks of the clients are not part of this state.
-- A configuration without a client, which the code never has, is taken as one that needs no stop.
pub mod Steps
pub mod Follows
use bambu_gateway.Prelude.{
  ℕ, ◌+◌, String, Bool, true, false, not, ◌&&◌, Option, none, some, List, [], ◌∷◌, if◌then◌else◌,
  ◌==◌, string_eq,
}
use bambu_gateway.Prelude.Show.{◌<>◌}
use bambu_gateway.Prelude.Dict
use bambu_gateway.Prelude.Dict.{Dict}
use bambu_gateway.ConfigStore.{PrinterConfig}
use bambu_gateway.Mqtt.Client.{end_of}

pub record Made : Type 0 where
  pub number : ℕ
  pub config : PrinterConfig
  pub name : String

pub record Service : Type 0 where
  pub configs : Dict String PrinterConfig
  pub clients : Dict String Made
  pub stopped : List ℕ
  pub next_number : ℕ

unfoldable pub by_serial :
    List PrinterConfig → Dict String PrinterConfig → Dict String PrinterConfig
by_serial [] d = d
by_serial (c ∷ cs) d = by_serial cs (Dict.insert c.serial c d)

abbrev pub display_name : PrinterConfig → String
display_name c = if c.name == "" then "Printer " <> end_of 4 c.serial else c.name

abbrev pub made : ℕ → PrinterConfig → Made
made n c = record { number = n; config = c; name = display_name c }

-- The same address and access code.
abbrev pub same_link : PrinterConfig → PrinterConfig → Bool
same_link old new = old.ip == new.ip && old.access_code == new.access_code

abbrev pub stop_client : Option Made → List ℕ → List ℕ
stop_client none stopped = stopped
stop_client (some m) stopped = m.number ∷ stopped

unfoldable pub remove_printer : String → Service → Service
remove_printer serial s = record s {
  configs = Dict.remove serial s.configs;
  clients = Dict.remove serial s.clients;
  stopped = stop_client (Dict.lookup serial s.clients) s.stopped;
}

unfoldable pub add_printer : String → PrinterConfig → Service → Service
add_printer serial new s = record s {
  configs = Dict.insert serial new s.configs;
  clients = Dict.insert serial (made s.next_number new) s.clients;
  next_number = s.next_number + 1;
}

unfoldable pub reset_printer : String → PrinterConfig → Service → Service
reset_printer serial new s = record s {
  configs = Dict.insert serial new s.configs;
  clients = Dict.insert serial (made s.next_number new) s.clients;
  stopped = stop_client (Dict.lookup serial s.clients) s.stopped;
  next_number = s.next_number + 1;
}

abbrev pub renamed : PrinterConfig → PrinterConfig → Made → Made
renamed old new m = if old.name == new.name then m else record m { name = display_name new }

abbrev pub rename_client :
    String → PrinterConfig → PrinterConfig → Option Made → Dict String Made → Dict String Made
rename_client serial old new none clients = clients
rename_client serial old new (some m) clients = Dict.insert serial (renamed old new m) clients

unfoldable pub keep_printer : String → PrinterConfig → PrinterConfig → Service → Service
keep_printer serial old new s = record s {
  configs = Dict.insert serial new s.configs;
  clients = rename_client serial old new (Dict.lookup serial s.clients) s.clients;
}

-- One serial of the old or the new configurations.
abbrev pub sync_one : String → Option PrinterConfig → Option PrinterConfig → Service → Service
sync_one serial none none s = s
sync_one serial (some old) none s = remove_printer serial s
sync_one serial (some old) (some new) s =
    if same_link old new then keep_printer serial old new s else reset_printer serial new s
sync_one serial none (some new) s = add_printer serial new s

abbrev pub keys_of {ℓ} : {V : Type ℓ} → Dict String V → List String
keys_of [] = []
keys_of ((k, v) ∷ d) = k ∷ keys_of d

-- The serials of a list, each by its configurations of before and of the new list.
unfoldable pub sync_serials :
    Dict String PrinterConfig → Dict String PrinterConfig → List String → Service → Service
sync_serials olds news [] s = s
sync_serials olds news (serial ∷ serials) s =
    sync_serials olds news serials
      (sync_one serial (Dict.lookup serial olds) (Dict.lookup serial news) s)

abbrev pub select : (String → Bool) → List String → List String
select p [] = []
select p (x ∷ xs) = let rest = select p xs in if p x then x ∷ rest else rest

abbrev pub is_known : Dict String PrinterConfig → String → Bool
is_known d serial = elim (Dict.lookup serial d) [ none ↦ false | some _ ↦ true ]

-- The removed ones, those that stay, and the added ones.
unfoldable pub sync_printers : List PrinterConfig → Service → Service
sync_printers new_configs s =
    let news = by_serial new_configs [] in
    let olds = s.configs in
    sync_serials olds news (select (λ k. not (is_known olds k)) (keys_of news)) (
      sync_serials olds news (select (is_known news) (keys_of olds))
        (sync_serials olds news (select (λ k. not (is_known news k)) (keys_of olds)) s))
