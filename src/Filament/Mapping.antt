-- ===== src/Filament/Mapping.antt =====
-- The mapping that `build_ams_mapping` sends to the printer.
use bambu_gateway.Prelude.{
  ℕ, zero, suc, ◌<◌, ◌≡◌, refl, sym, ap, ◌∙◌, Bool, false, Option, none, some, List, [], ◌∷◌, arith,
  if◌then◌else◌, length, length-replicate, replicate, nat_beq,
}
use bambu_gateway.Prelude.Int.{ℤ, pos, negsuc}
use bambu_gateway.Prelude.Json.{Json}
use bambu_gateway.Prelude.Dict.{Dict}
use bambu_gateway.Filament.{
  extract_selected_tray_slots, slot_at, size_of, mapping_size, target, set, place, place_all,
  unless_empty, build_ams_mapping,
}

abbrev pub get_elem? {ℓ} : {A : Type ℓ} → List A → ℕ → Option A
get_elem? [] i = none
get_elem? (x ∷ xs) zero = some x
get_elem? (x ∷ xs) (suc i) = get_elem? xs i

abbrev pub hits : Option ℤ → ℕ → Bool
hits none i = false
hits (some (pos s)) i = nat_beq s i
hits (some (negsuc s)) i = false

-- The tray of the last selection for a slot, `d` where there is none.
pub latest : Option (List ℤ) → ℕ → Dict ℤ ℤ → ℤ → ℤ
latest slots i [] d = d
latest slots i ((position, tray) ∷ rest) d =
    latest slots i rest (if hits (target slots position) i then tray else d)

length-set : (xs : List ℤ) (i : ℕ) (v : ℤ) → length (set xs i v) ≡ length xs
length-set [] i v = refl
length-set (x ∷ xs) zero v = refl
length-set (x ∷ xs) (suc i) v = ap suc (length-set xs i v)

get_elem?-set :
    (xs : List ℤ) (s i : ℕ) (v d : ℤ)
    → get_elem? xs i ≡ some d
    → get_elem? (set xs s v) i ≡ some (if nat_beq s i then v else d)
get_elem?-set [] s i v d h = cc
get_elem?-set (x ∷ xs) zero zero v d h = refl
get_elem?-set (x ∷ xs) zero (suc i) v d h = ground arith
get_elem?-set (x ∷ xs) (suc s) zero v d h = ground arith
get_elem?-set (x ∷ xs) (suc s) (suc i) v d h = ground (arith, get_elem?-set xs s i v d h)

get_elem?-lt : (xs : List ℤ) (i : ℕ) (d : ℤ) → get_elem? xs i ≡ some d → i < length xs
get_elem?-lt [] i d h = cc
get_elem?-lt (x ∷ xs) zero d h = omega arith
get_elem?-lt (x ∷ xs) (suc i) d h = omega (arith, get_elem?-lt xs i d h)

length-place :
    (t : Option ℤ) (tray : ℤ) (m : List ℤ) (u : Bool) → length (place t tray (m, u)).0 ≡ length m
length-place none tray m u = refl
length-place (some (negsuc s)) tray m u = refl
length-place (some (pos s)) tray m u = ground (arith, length-set m s tray)

get_elem?-place :
    (t : Option ℤ) (tray : ℤ) (m : List ℤ) (u : Bool) (i : ℕ) (d : ℤ)
    → get_elem? m i ≡ some d
    → get_elem? (place t tray (m, u)).0 i ≡ some (if hits t i then tray else d)
get_elem?-place none tray m u i d h = h
get_elem?-place (some (negsuc s)) tray m u i d h = h
get_elem?-place (some (pos s)) tray m u i d h =
    ground (arith, get_elem?-set m s i tray d h, get_elem?-lt m i d h)

module _ (slots : Option (List ℤ)) where
  place_all_lem :
      (sel : Dict ℤ ℤ) (m : List ℤ) (u : Bool) (i : ℕ) (d : ℤ)
      → get_elem? m i ≡ some d
      → (length (place_all slots sel (m, u)).0 ≡ length m)
        × (get_elem? (place_all slots sel (m, u)).0 i ≡ some (latest slots i sel d))
  unfolding place_all latest
  place_all_lem [] m u i d h = (refl, h)
  place_all_lem ((p, tray) ∷ rest) m u i d h =
      let t = target slots p in
      let next = place t tray (m, u) in
      let (size, there) =
        place_all_lem rest next.0 next.1 i (if hits t i then tray else d)
          (get_elem?-place t tray m u i d h) in
      (size ∙ length-place t tray m u, there)

get_elem?-replicate : (n i : ℕ) (d : ℤ) → i < n → get_elem? (replicate n d) i ≡ some d
get_elem?-replicate zero i d h = absurd (omega arith)
get_elem?-replicate (suc n) zero d h = refl
get_elem?-replicate (suc n) (suc i) d h = get_elem?-replicate n i d (omega arith)

slot_at-lt : (slots : List ℤ) (p : ℤ) (s : ℕ) → slot_at slots p ≡ some (pos s) → s < size_of slots
unfolding slot_at size_of
slot_at-lt [] p s h = cc
slot_at-lt (x ∷ xs) (pos zero) s h = ground arith
slot_at-lt (x ∷ xs) (pos (suc n)) s h = ground (arith, slot_at-lt xs (pos n) s h)
slot_at-lt (x ∷ xs) (negsuc n) s h = cc

entries_lem :
    (sel : Dict ℤ ℤ) (count : Option ℕ) (slots : Option (List ℤ)) (mapping : List ℤ)
    (use_ams : Bool) (i : ℕ)
    → unless_empty sel count slots ≡ (some mapping, use_ams)
    → i < mapping_size sel count slots
    → (length mapping ≡ mapping_size sel count slots)
      × (get_elem? mapping i ≡ some (latest slots i sel (negsuc 0)))
entries_lem [] count slots mapping use_ams i h fits = cc
entries_lem (e ∷ es) count slots mapping use_ams i h fits =
    let n = mapping_size (e ∷ es) count slots in
    let found =
      place_all_lem slots (e ∷ es) (replicate n (negsuc 0)) false i (negsuc 0)
        (get_elem?-replicate n i (negsuc 0) fits) in
    let same : (place_all slots (e ∷ es) (replicate n (negsuc 0), false)).0 ≡ mapping =
      cc (ap (λ (r : Option (List ℤ) × Bool). r.0) h) in
    (
      ap length (sym same) ∙ found.0 ∙ length-replicate n (negsuc 0),
      ap (λ m. get_elem? m i) (sym same) ∙ found.1,
    )

-- When the payload selects any tray, the mapping's entry for each slot in its range is the tray of
-- the last selection for that slot, or -1 where the slot has none.
pub build_ams_mapping_lem :
    (payload : Json) (count : Option ℕ) (slots : Option (List ℤ)) (mapping : List ℤ)
    (use_ams : Bool) (i : ℕ)
    → build_ams_mapping payload count slots ≡ (some mapping, use_ams)
    → let sel = extract_selected_tray_slots payload in
      i < mapping_size sel count slots
      → (length mapping ≡ mapping_size sel count slots)
        × (get_elem? mapping i ≡ some (latest slots i sel (negsuc 0)))
unfolding build_ams_mapping
build_ams_mapping_lem payload count slots mapping use_ams i h fits =
    entries_lem (extract_selected_tray_slots payload) count slots mapping use_ams i h fits

-- With the authored slots given, every slot that a project position stands for is in the mapping's
-- range, so that no selection for it is skipped.
pub slot_at-lt-mapping_size :
    (sel : Dict ℤ ℤ) (count : Option ℕ) (slots : List ℤ) (p : ℤ) (s : ℕ)
    → slot_at slots p ≡ some (pos s)
    → s < mapping_size sel count (some slots)
unfolding mapping_size
slot_at-lt-mapping_size sel count slots p s h = ground (arith, slot_at-lt slots p s h)
