-- ===== src/DeviceStore/Calls.antt =====
-- Any sequence of calls, and a restart after it.
use mathlib.Core.Path.{subst}
use bambu_gateway.Prelude.{
  ◌≡◌, sym, String, true, List, [], ◌∷◌, All, inl, inr, Bool-cases, ◌==◌, string_eq,
}
use bambu_gateway.DeviceStore.{
  DeviceRecord, ActiveActivity, DeviceStore, open_store, save, upsert_device, remove_device,
  add_activity, remove_activity, invalidate_token,
}
use bambu_gateway.DeviceStore.Durable.{
  IsValid, Plain, open_store-save, upsert_device-IsValid, remove_device-IsValid,
  add_activity-IsValid, remove_activity-IsValid,
}
use bambu_gateway.DeviceStore.Tokens.{without, invalidate_cases, without-IsValid}

pub data Call : Type 0 where
  upsert : String → DeviceRecord → Call
  remove : String → Call
  add : String → ActiveActivity → Call
  remove_pair : String → String → Call
  invalidate : String → Call

unfoldable pub call : Call → DeviceStore → DeviceStore
call (upsert now d) s = upsert_device now d s
call (remove id) s = remove_device id s
call (add now a) s = add_activity now a s
call (remove_pair device_id printer_id) s = remove_activity device_id printer_id s
call (invalidate token) s = invalidate_token token s

unfoldable pub call_all : List Call → DeviceStore → DeviceStore
call_all [] s = s
call_all (c ∷ cs) s = call_all cs (call c s)

-- A device is upserted with no start token or with a text that is not empty.
abbrev pub IsPlain : Call → Type 0
IsPlain (upsert now d) = Plain d
IsPlain (remove id) = Unit
IsPlain (add now a) = Unit
IsPlain (remove_pair device_id printer_id) = Unit
IsPlain (invalidate token) = Unit

-- A valid store that its file holds.
pub record IsSynced (s : DeviceStore) : Type 0 where
  pub valid : IsValid s
  pub reopened : open_store s.file ≡ s

-- The file is no part of validity.
unsaved-IsValid : (s : DeviceStore) → IsValid (save s) → IsValid s
unfolding save
unsaved-IsValid s v = record {
  devices_unique = v.devices_unique;
  devices_keyed = v.devices_keyed;
  devices_normal = v.devices_normal;
  activities_unique = v.activities_unique;
  activities_keyed = v.activities_keyed;
}

saved-IsValid : (s : DeviceStore) → IsValid s → IsValid (save s)
unfolding save
saved-IsValid s v = record {
  devices_unique = v.devices_unique;
  devices_keyed = v.devices_keyed;
  devices_normal = v.devices_normal;
  activities_unique = v.activities_unique;
  activities_keyed = v.activities_keyed;
}

save-IsSynced : (s : DeviceStore) → IsValid (save s) → IsSynced (save s)
save-IsSynced s v = record { valid = v; reopened = open_store-save s (unsaved-IsValid s v) }

invalidate-IsSynced :
    (token : String) (s : DeviceStore) → IsSynced s → IsSynced (invalidate_token token s)
unfolding invalidate_token
invalidate-IsSynced token s h = elim (Bool-cases (token == "")) [
  | inl e ↦ subst (λ (x : DeviceStore). IsSynced x) (sym (empty e)) h
  | inr n ↦ elim (invalidate_cases token s n) [
    | inl e ↦
        subst (λ (x : DeviceStore). IsSynced x) (sym e)
          (save-IsSynced (without token s n)
            (saved-IsValid (without token s n) (without-IsValid token s n h.valid)))
    | inr (e, none_holds) ↦ subst (λ (x : DeviceStore). IsSynced x) (sym e) h
  ]
]
  where
    empty : (token == "") ≡ true → invalidate_token token s ≡ s
    empty e = rw (e, invalidate_token)

call-IsSynced : (c : Call) (s : DeviceStore) → IsPlain c → IsSynced s → IsSynced (call c s)
unfolding call upsert_device remove_device add_activity remove_activity
call-IsSynced (upsert now d) s p h = save-IsSynced _ (upsert_device-IsValid s h.valid now d p)
call-IsSynced (remove id) s p h = save-IsSynced _ (remove_device-IsValid s h.valid id)
call-IsSynced (add now a) s p h = save-IsSynced _ (add_activity-IsValid s h.valid now a)
call-IsSynced (remove_pair device_id printer_id) s p h =
    save-IsSynced _ (remove_activity-IsValid s h.valid device_id printer_id)
call-IsSynced (invalidate token) s p h = invalidate-IsSynced token s h

-- After any calls on a valid store that its file holds, with start tokens that are absent or not
-- empty, the store is valid, and a gateway that starts again on the file has the same store.
pub call_all-IsSynced :
    (cs : List Call) (s : DeviceStore) → All IsPlain cs → IsSynced s → IsSynced (call_all cs s)
unfolding call_all
call_all-IsSynced [] s p h = h
call_all-IsSynced (c ∷ cs) s p h = call_all-IsSynced cs (call c s) p.1 (call-IsSynced c s p.0 h)
