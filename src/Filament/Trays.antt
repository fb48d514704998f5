-- ===== src/Filament/Trays.antt =====
-- What a passed tray check says.
use bambu_gateway.Prelude.{
  ◌≡◌, refl, true, some, List, [], ◌∷◌, arith, if◌then◌else◌, is_in, All, Bool-cases, inl, inr,
}
use bambu_gateway.Prelude.Int.{ℤ, int_eq}
use bambu_gateway.Prelude.Json.{Json, obj, Fields, entries}
use bambu_gateway.Filament.Validation.{
  AmsInfo, tray_slots, and_external, KeyOf, key, other, unhashable, key_of, TrayCheck, passes,
  unavailable, raises, selections, check_all, validate_selected_trays,
}

-- A selected value is, as a key, one of the slots.
pub record Offered (slots : List ℤ) (j : Json) : Type 0 where
  pub slot : ℤ
  pub is_key : key_of j ≡ key slot
  pub among : is_in slot slots ≡ true

check_first :
    (slots : List ℤ) (j : Json) (k : KeyOf) (rest : TrayCheck)
    → key_of j ≡ k
    → elim k [
      | key s ↦ if is_in s slots then rest else unavailable j
      | other ↦ unavailable j
      | unhashable ↦ raises
    ]
      ≡ passes
    → Offered slots j × (rest ≡ passes)
check_first slots j (key s) rest e h = elim (Bool-cases (is_in s slots)) [
  | inl m ↦ (record { slot = s; is_key = e; among = m }, ground (arith, h, m))
  | inr m ↦ absurd (ground (arith, h, m))
]
check_first slots j other rest e h = absurd (ground (arith, h))
check_first slots j unhashable rest e h = absurd (ground (arith, h))

check_all-Offered :
    (slots : List ℤ) (js : List Json) → check_all slots js ≡ passes → All (Offered slots) js
unfolding check_all
check_all-Offered slots [] h = tt
check_all-Offered slots (j ∷ js) h =
    let (here, rest) = check_first slots j (key_of j) (check_all slots js) refl h in
    (here, check_all-Offered slots js rest)

-- When the check passes on a selection that is a dict, for a printer whose trays are known, every
-- value selected as a tray is, as a number, the slot of one of the trays or of the external spool.
pub validate_selected_trays-Offered :
    (fs : Fields) (info : AmsInfo)
    → validate_selected_trays (obj fs) (some info) ≡ passes
    → All (Offered (tray_slots (and_external info.vt_tray info.trays))) (selections (entries fs))
unfolding validate_selected_trays
validate_selected_trays-Offered fs info h =
    check_all-Offered (tray_slots (and_external info.vt_tray info.trays)) (selections (entries fs))
      h
