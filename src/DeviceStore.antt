-- ===== src/DeviceStore.antt =====
-- app/device_store.py: the devices and their live activities, kept in a JSON file. The lock makes
-- each method one step; `now` is `_now_iso()`. What the file holds is the list of its records; the
-- store's own records have all their fields, with the types that the code gives them.
pub mod Durable
pub mod Tokens
pub mod Calls
mod Tests
use bambu_gateway.Prelude.{
  String, Bool, true, false, ◌&&◌, ◌||◌, Option, none, some, List, [], ◌∷◌, if◌then◌else◌, is_in,
  ◌==◌, string_eq, pair_eq, map,
}
use bambu_gateway.Prelude.Dict
use bambu_gateway.Prelude.Dict.{Dict}
use bambu_gateway.Prelude.Dict.Rebuild.{rebuild, values}

pub record DeviceRecord : Type 0 where
  pub id : String
  pub name : String
  pub device_token : String
  pub live_activity_start_token : Option String
  pub subscribed_printers : List String
  pub registered_at : String
  pub last_seen_at : String

pub record ActiveActivity : Type 0 where
  pub device_id : String
  pub printer_id : String
  pub activity_update_token : String
  pub started_at : String

-- The file is not there, cannot be read or parsed, or holds records.
pub data DeviceFile : Type 0 where
  missing unreadable : DeviceFile
  saved : List DeviceRecord → List ActiveActivity → DeviceFile

pub record DeviceStore : Type 0 where
  pub file : DeviceFile
  pub devices : Dict String DeviceRecord
  pub activities : Dict (String × String) ActiveActivity

-- `d.get("live_activity_start_token") or None`.
abbrev pub nonempty : Option String → Option String
nonempty none = none
nonempty (some t) = if t == "" then none else some t

abbrev pub read_device : DeviceRecord → DeviceRecord
read_device d = record d { live_activity_start_token = nonempty d.live_activity_start_token }

unfoldable pub load_devices : List DeviceRecord → Dict String DeviceRecord
load_devices ds = rebuild (λ (d : DeviceRecord). d.id) (map read_device ds) []

abbrev pub activity_key : ActiveActivity → String × String
activity_key a = (a.device_id, a.printer_id)

unfoldable pub load_activities : List ActiveActivity → Dict (String × String) ActiveActivity
load_activities acts = rebuild activity_key acts []

-- The store that `__init__` makes over a file.
unfoldable pub open_store : DeviceFile → DeviceStore
open_store missing = record { file = missing; devices = []; activities = [] }
open_store unreadable = record { file = unreadable; devices = []; activities = [] }
open_store (saved ds acts) = record {
  file = saved ds acts;
  devices = load_devices ds;
  activities = load_activities acts;
}

unfoldable pub save : DeviceStore → DeviceStore
save s = record s { file = saved (values s.devices) (values s.activities) }

unfoldable pub list_devices : DeviceStore → List DeviceRecord
list_devices s = values s.devices

unfoldable pub get_device : String → DeviceStore → Option DeviceRecord
get_device device_id s = Dict.lookup device_id s.devices

abbrev registered_before : Option DeviceRecord → String
registered_before none = ""
registered_before (some d) = d.registered_at

abbrev or_else : String → String → String
or_else a b = if a == "" then b else a

-- A record without a time of registration takes that of its predecessor, or else the present.
abbrev pub stamped : String → Option DeviceRecord → DeviceRecord → DeviceRecord
stamped now existing d = record d {
  registered_at = or_else (or_else d.registered_at (registered_before existing)) now;
  last_seen_at = now;
}

unfoldable pub upsert_device : String → DeviceRecord → DeviceStore → DeviceStore
upsert_device now d s =
    save (record s {
      devices = Dict.insert d.id (stamped now (Dict.lookup d.id s.devices) d) s.devices;
    })

abbrev of_other : String → ActiveActivity → Bool
of_other device_id a = if a.device_id == device_id then false else true

unfoldable pub remove_device : String → DeviceStore → DeviceStore
remove_device device_id s = save (record s {
  devices = Dict.remove device_id s.devices;
  activities = Dict.retain (of_other device_id) s.activities;
})

unfoldable pub add_activity : String → ActiveActivity → DeviceStore → DeviceStore
add_activity now a s =
    let a' = record a { started_at = or_else a.started_at now } in
    save (record s { activities = Dict.insert (a.device_id, a.printer_id) a' s.activities })

unfoldable pub remove_activity : String → String → DeviceStore → DeviceStore
remove_activity device_id printer_id s =
    save (record s { activities = Dict.remove (device_id, printer_id) s.activities })

unfoldable pub activities_of : String → List ActiveActivity → List ActiveActivity
activities_of printer_id [] = []
activities_of printer_id (a ∷ acts) =
    let rest = activities_of printer_id acts in
    if a.printer_id == printer_id then a ∷ rest else rest

unfoldable pub list_activities_for_printer : String → DeviceStore → List ActiveActivity
list_activities_for_printer printer_id s = activities_of printer_id (values s.activities)

unfoldable pub clear_start : String → Option String → Option String
clear_start token none = none
clear_start token (some t) = if t == token then none else some t

abbrev pub cleared : String → DeviceRecord → DeviceRecord
cleared token d = record d {
  device_token = if d.device_token == token then "" else d.device_token;
  live_activity_start_token = clear_start token d.live_activity_start_token;
}

unfoldable pub clear_devices : String → Dict String DeviceRecord → Dict String DeviceRecord
clear_devices token [] = []
clear_devices token ((k, d) ∷ m) = (k, cleared token d) ∷ clear_devices token m

abbrev pub has_start : String → Option String → Bool
has_start token none = false
has_start token (some t) = t == token

abbrev pub holds : String → DeviceRecord → Bool
holds token d = d.device_token == token || has_start token d.live_activity_start_token

unfoldable pub any_device : String → List DeviceRecord → Bool
any_device token [] = false
any_device token (d ∷ ds) = holds token d || any_device token ds

unfoldable pub any_activity : String → List ActiveActivity → Bool
any_activity token [] = false
any_activity token (a ∷ acts) = a.activity_update_token == token || any_activity token acts

abbrev pub other_token : String → ActiveActivity → Bool
other_token token a = if a.activity_update_token == token then false else true

-- The file is written when something has changed.
unfoldable pub invalidate_token : String → DeviceStore → DeviceStore
invalidate_token token s =
    let s' = record s {
      devices = clear_devices token s.devices;
      activities = Dict.retain (other_token token) s.activities;
    } in
    let changed = any_device token (values s.devices) || any_activity token (values s.activities) in
    if token == "" then s else if changed then save s' else s'

unfoldable pub is_subscribed : String → DeviceRecord → Bool
is_subscribed printer_id d =
    is_in "*" d.subscribed_printers || is_in printer_id d.subscribed_printers

unfoldable pub subscribed : String → List DeviceRecord → List DeviceRecord
subscribed printer_id [] = []
subscribed printer_id (d ∷ ds) =
    let rest = subscribed printer_id ds in if is_subscribed printer_id d then d ∷ rest else rest

unfoldable pub subscribers_for_printer : String → DeviceStore → List DeviceRecord
subscribers_for_printer printer_id s = subscribed printer_id (values s.devices)
