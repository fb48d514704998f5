-- ===== src/DeviceStore/Durable.antt =====
-- A gateway that starts again on the file has the store.
use bambu_gateway.Prelude.{
  ◌≡◌, refl, String, [], ◌∷◌, map, arith, if_both, ◌==◌, string_eq, pair_eq,
}
use bambu_gateway.Prelude.Dict
use bambu_gateway.Prelude.Dict.{Dict}
use bambu_gateway.Prelude.Dict.Unique.{IsUnique, insert-IsUnique, remove-IsUnique, retain-IsUnique}
use bambu_gateway.Prelude.Dict.Rebuild.{
  values, Keyed, retain-Keyed, insert-Keyed, remove-Keyed, rebuild-values,
}
use bambu_gateway.DeviceStore.{
  DeviceRecord, ActiveActivity, DeviceStore, nonempty, read_device, load_devices, activity_key,
  load_activities, open_store, save, upsert_device, remove_device, add_activity, remove_activity,
}

-- The entries of a dictionary of devices: no token is the empty text.
abbrev pub Normal : Dict String DeviceRecord → Type 0
Normal [] = Unit
Normal ((k, d) ∷ m) =
    (nonempty d.live_activity_start_token ≡ d.live_activity_start_token) × Normal m

-- Every device and activity stands under its own key, and once.
pub record IsValid (s : DeviceStore) : Type 0 where
  pub devices_unique : IsUnique s.devices
  pub devices_keyed : Keyed (λ (d : DeviceRecord). d.id) s.devices
  pub devices_normal : Normal s.devices
  pub activities_unique : IsUnique s.activities
  pub activities_keyed : Keyed activity_key s.activities

read_device-values :
    (m : Dict String DeviceRecord) → Normal m → map read_device (values m) ≡ values m
read_device-values [] h = refl
read_device-values ((k, d) ∷ m) h = ground (arith, h.0, read_device-values m h.1)

-- A store that has been saved is read back from its file: devices, activities and order.
pub open_store-save : (s : DeviceStore) → IsValid s → open_store (save s).file ≡ save s
unfolding open_store save load_devices load_activities
open_store-save s v =
    let devices : load_devices (values s.devices) ≡ s.devices =
      rw (read_device-values s.devices v.devices_normal) (
        rebuild-values (λ (d : DeviceRecord). d.id) [] s.devices v.devices_unique
          v.devices_keyed) in
    let activities : load_activities (values s.activities) ≡ s.activities =
      rebuild-values activity_key [] s.activities v.activities_unique v.activities_keyed in
    rw (devices, activities)

insert-Normal :
    (k : String) (d : DeviceRecord) (m : Dict String DeviceRecord)
    → nonempty d.live_activity_start_token ≡ d.live_activity_start_token
    → Normal m
    → Normal (Dict.insert k d m)
unfolding Dict.insert
insert-Normal k d [] q h = (q, tt)
insert-Normal k d ((j, w) ∷ m) q h =
    if_both (λ (m' : Dict String DeviceRecord). Normal m') (j == k) (q, h.1)
      (h.0, insert-Normal k d m q h.1)

remove-Normal : (k : String) (m : Dict String DeviceRecord) → Normal m → Normal (Dict.remove k m)
unfolding Dict.remove
remove-Normal k [] h = tt
remove-Normal k ((j, w) ∷ m) h =
    if_both (λ (m' : Dict String DeviceRecord). Normal m') (j == k) (remove-Normal k m h.1)
      (h.0, remove-Normal k m h.1)

-- What has no reason to be called otherwise: no token, or a text.
abbrev pub Plain : DeviceRecord → Type 0
Plain d = nonempty d.live_activity_start_token ≡ d.live_activity_start_token

module _ (s : DeviceStore) (v : IsValid s) where
  pub upsert_device-IsValid :
      (now : String) (d : DeviceRecord) → Plain d → IsValid (upsert_device now d s)
  unfolding upsert_device save
  upsert_device-IsValid now d q = record {
    devices_unique = insert-IsUnique d.id _ s.devices v.devices_unique;
    devices_keyed = insert-Keyed (λ (x : DeviceRecord). x.id) d.id _ s.devices refl v.devices_keyed;
    devices_normal = insert-Normal d.id _ s.devices q v.devices_normal;
    activities_unique = v.activities_unique;
    activities_keyed = v.activities_keyed;
  }

  pub remove_device-IsValid : (id : String) → IsValid (remove_device id s)
  unfolding remove_device save
  remove_device-IsValid id = record {
    devices_unique = remove-IsUnique id s.devices v.devices_unique;
    devices_keyed = remove-Keyed (λ (x : DeviceRecord). x.id) id s.devices v.devices_keyed;
    devices_normal = remove-Normal id s.devices v.devices_normal;
    activities_unique = retain-IsUnique _ s.activities v.activities_unique;
    activities_keyed = retain-Keyed activity_key _ s.activities v.activities_keyed;
  }

  pub add_activity-IsValid : (now : String) (a : ActiveActivity) → IsValid (add_activity now a s)
  unfolding add_activity save
  add_activity-IsValid now a = record {
    devices_unique = v.devices_unique;
    devices_keyed = v.devices_keyed;
    devices_normal = v.devices_normal;
    activities_unique = insert-IsUnique (activity_key a) _ s.activities v.activities_unique;
    activities_keyed =
        insert-Keyed activity_key (activity_key a) _ s.activities refl v.activities_keyed;
  }

  pub remove_activity-IsValid :
      (device_id printer_id : String) → IsValid (remove_activity device_id printer_id s)
  unfolding remove_activity save
  remove_activity-IsValid device_id printer_id = record {
    devices_unique = v.devices_unique;
    devices_keyed = v.devices_keyed;
    devices_normal = v.devices_normal;
    activities_unique = remove-IsUnique (device_id, printer_id) s.activities v.activities_unique;
    activities_keyed =
        remove-Keyed activity_key (device_id, printer_id) s.activities v.activities_keyed;
  }
