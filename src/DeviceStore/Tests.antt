-- ===== src/DeviceStore/Tests.antt =====
-- A phone that follows one printer.
use bambu_gateway.Prelude.{◌≡◌, refl, false, some, List, [], ◌∷◌}
use bambu_gateway.DeviceStore.{
  DeviceRecord, ActiveActivity, DeviceStore, missing, open_store, invalidate_token,
}
use bambu_gateway.DeviceStore.Tokens.{holders, invalidate_token-holders}
use bambu_gateway.DeviceStore.Calls.{
  Call, upsert, add, invalidate, call_all, IsSynced, call_all-IsSynced,
}

abbrev phone : DeviceRecord
phone = record {
  id = "d1";
  name = "Phone";
  device_token = "t1";
  live_activity_start_token = some "t2";
  subscribed_printers = "*" ∷ [];
  registered_at = "";
  last_seen_at = "";
}

abbrev activity : ActiveActivity
activity = record {
  device_id = "d1";
  printer_id = "P1";
  activity_update_token = "t3";
  started_at = "";
}

abbrev calls : List Call
calls = upsert "2026" phone ∷ add "2026" activity ∷ invalidate "t3" ∷ []

abbrev empty_store : DeviceStore
empty_store = record { file = missing; devices = []; activities = [] }

empty_store-IsSynced : IsSynced empty_store
unfolding open_store
empty_store-IsSynced = record {
  valid = record {
    devices_unique = tt;
    devices_keyed = tt;
    devices_normal = tt;
    activities_unique = tt;
    activities_keyed = tt;
  };
  reopened = refl;
}

call_all-IsSynced_example : IsSynced (call_all calls empty_store)
call_all-IsSynced_example =
    call_all-IsSynced calls empty_store (refl, (tt, (tt, tt))) empty_store-IsSynced

abbrev with_phone : DeviceStore
with_phone = call_all calls empty_store

invalidate_token-holders_example : holders "t1" (invalidate_token "t1" with_phone) ≡ false
invalidate_token-holders_example = invalidate_token-holders "t1" with_phone refl
