-- ===== src/DeviceStore/Tokens.antt =====
-- What is left of a token that the service has refused.
use bambu_gateway.Prelude.{
  ◌≡◌, refl, ap, ◌∙◌, String, Bool, false, ◌||◌, Option, none, some, [], ◌∷◌, arith, ◌⊎◌,
  Bool-cases, inl, inr, if◌then◌else◌, ◌==◌, string_eq, pair_eq,
}
use bambu_gateway.Prelude.Dict
use bambu_gateway.Prelude.Dict.{Dict}
use bambu_gateway.Prelude.Dict.Unique.{IsUnique, retain-IsUnique}
use bambu_gateway.Prelude.Dict.Rebuild.{values, Keyed, retain-Keyed}
use bambu_gateway.DeviceStore.{
  DeviceRecord, ActiveActivity, DeviceStore, nonempty, activity_key, save, clear_devices, cleared,
  clear_start, holds, has_start, any_device, any_activity, other_token, invalidate_token,
}
use bambu_gateway.DeviceStore.Durable.{Normal, IsValid}

clear_devices_unique :
    (token k : String) (m : Dict String DeviceRecord)
    → Dict.lookup k m ≡ none
    → Dict.lookup k (clear_devices token m) ≡ none
unfolding Dict.lookup clear_devices
clear_devices_unique token k [] h = refl
clear_devices_unique token k ((j, d) ∷ m) h = ground (arith, h, clear_devices_unique token k m)

clear_devices-IsUnique :
    (token : String) (m : Dict String DeviceRecord) → IsUnique m → IsUnique (clear_devices token m)
unfolding clear_devices
clear_devices-IsUnique token [] u = tt
clear_devices-IsUnique token ((j, d) ∷ m) u =
    (clear_devices_unique token j m u.0, clear_devices-IsUnique token m u.1)

clear_devices-Keyed :
    (token : String) (m : Dict String DeviceRecord)
    → Keyed (λ (d : DeviceRecord). d.id) m
    → Keyed (λ (d : DeviceRecord). d.id) (clear_devices token m)
unfolding clear_devices
clear_devices-Keyed token [] h = tt
clear_devices-Keyed token ((j, d) ∷ m) h = (h.0, clear_devices-Keyed token m h.1)

clear_start_normal :
    (token : String) (t : Option String)
    → nonempty t ≡ t
    → nonempty (clear_start token t) ≡ clear_start token t
unfolding clear_start
clear_start_normal token none h = refl
clear_start_normal token (some t) h = ground (arith, h)

clear_devices-Normal :
    (token : String) (m : Dict String DeviceRecord) → Normal m → Normal (clear_devices token m)
unfolding clear_devices
clear_devices-Normal token [] h = tt
clear_devices-Normal token ((j, d) ∷ m) h =
    (clear_start_normal token d.live_activity_start_token h.0, clear_devices-Normal token m h.1)

cleared_text :
    (token text : String)
    → (token == "") ≡ false
    → ((if text == token then "" else text) == token) ≡ false
cleared_text token text n = elim (Bool-cases (text == token)) [
  | inl e ↦ rw e (ground (arith, n, string_eq.eqb_iff "" token, string_eq.eqb_iff token ""))
  | inr e ↦ rw (e, e)
]

cleared_start : (token : String) (t : Option String) → has_start token (clear_start token t) ≡ false
unfolding clear_start
cleared_start token none = refl
cleared_start token (some t) = ground arith

holds-cleared :
    (token : String) (d : DeviceRecord)
    → (token == "") ≡ false
    → holds token (cleared token d) ≡ false
holds-cleared token d n =
    rw (cleared_text token d.device_token n) (cleared_start token d.live_activity_start_token)

cleared_same : (token : String) (d : DeviceRecord) → holds token d ≡ false → cleared token d ≡ d
unfolding clear_start
cleared_same token d h = ground (arith, h)

neither : (a b : Bool) → (a || b) ≡ false → (a ≡ false) × (b ≡ false)
neither a b h = ground (arith, h)

clear_devices_same :
    (token : String) (m : Dict String DeviceRecord)
    → (token == "") ≡ false
    → any_device token (values m) ≡ false
    → clear_devices token m ≡ m
unfolding clear_devices any_device
clear_devices_same token [] n h = refl
clear_devices_same token ((j, d) ∷ m) n h =
    let (here, rest) = neither (holds token d) (any_device token (values m)) h in
    ap (λ (x : DeviceRecord). (j, x) ∷ clear_devices token m) (cleared_same token d here)
    ∙ ap (λ (r : Dict String DeviceRecord). (j, d) ∷ r) (clear_devices_same token m n rest)

retain_same :
    (token : String) (m : Dict (String × String) ActiveActivity)
    → any_activity token (values m) ≡ false
    → Dict.retain (other_token token) m ≡ m
unfolding Dict.retain any_activity
retain_same token [] h = refl
retain_same token ((j, a) ∷ m) h = ground (arith, h, retain_same token m)

clear_devices_clean :
    (token : String) (m : Dict String DeviceRecord)
    → (token == "") ≡ false
    → any_device token (values (clear_devices token m)) ≡ false
unfolding clear_devices any_device
clear_devices_clean token [] n = refl
clear_devices_clean token ((j, d) ∷ m) n =
    rw (holds-cleared token d n) (clear_devices_clean token m n)

retain_clean :
    (token : String) (m : Dict (String × String) ActiveActivity)
    → any_activity token (values (Dict.retain (other_token token) m)) ≡ false
unfolding Dict.retain any_activity
retain_clean token [] = refl
retain_clean token ((j, a) ∷ m) = ground (arith, retain_clean token m)

abbrev pub holders : String → DeviceStore → Bool
holders token s = any_device token (values s.devices) || any_activity token (values s.activities)

module _ (token : String) (s : DeviceStore) (n : (token == "") ≡ false) where
  abbrev pub without : DeviceStore
  without = record s {
    devices = clear_devices token s.devices;
    activities = Dict.retain (other_token token) s.activities;
  }

  pub invalidate_cases :
      (invalidate_token token s ≡ save without)
      ⊎ ((invalidate_token token s ≡ s) × (holders token s ≡ false))
  unfolding invalidate_token
  invalidate_cases = elim (Bool-cases (holders token s)) [
    | inl h ↦ inl (rw (n, h, invalidate_token))
    | inr h ↦
        let (d, a) =
          neither (any_device token (values s.devices)) (any_activity token (values s.activities))
            h in
        inr (
          rw (
            n,
            h,
            invalidate_token,
            clear_devices_same token s.devices n d,
            retain_same token s.activities a,
          ),
          h,
        )
  ]

  pub without-IsValid : IsValid s → IsValid without
  without-IsValid v = record {
    devices_unique = clear_devices-IsUnique token s.devices v.devices_unique;
    devices_keyed = clear_devices-Keyed token s.devices v.devices_keyed;
    devices_normal = clear_devices-Normal token s.devices v.devices_normal;
    activities_unique = retain-IsUnique (other_token token) s.activities v.activities_unique;
    activities_keyed =
        retain-Keyed activity_key (other_token token) s.activities v.activities_keyed;
  }

  -- After a token that is not the empty text is invalidated, no device and no activity holds it.
  pub invalidate_token-holders : holders token (invalidate_token token s) ≡ false
  invalidate_token-holders = elim invalidate_cases [ inl e ↦ rw e in_saved | inr (e, h) ↦ rw e h ]
    where
      in_saved : holders token (save without) ≡ false
      in_saved =
          unfold save in
          rw (clear_devices_clean token s.devices n) (retain_clean token s.activities)
