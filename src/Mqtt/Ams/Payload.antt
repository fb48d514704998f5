-- ===== src/Mqtt/Ams/Payload.antt =====
-- The units and trays that a payload holds, and the reading of one unit's.
use bambu_gateway.Prelude.{
  ℕ, ◌+◌, ◌≡◌, refl, sym, ap, ◌∙◌, Bool, true, false, Option, none, some, List, [], ◌∷◌, ◌++◌,
  length, suc, if◌then◌else◌, ◌==◌, string_eq, String,
}
use bambu_gateway.Prelude.Int.{ℤ, pos}
use bambu_gateway.Prelude.Json.{
  Json, null, bool, num, decimal, str, arr, obj, end, field, elements, entries, member,
}
use bambu_gateway.Filament.Validation.{int_of}
use bambu_gateway.Mqtt.Ams.{Tray, AmsUnit, int_or, id_of, trays_of, tray_entry, read_trays}

unfoldable pub tray_total : List AmsUnit → ℕ
tray_total [] = 0
tray_total (u ∷ us) = u.tray_count + tray_total us

-- The payload: the array at a key of an object, and its number there, zero when there is none.
abbrev pub array_of : Option Json → List Json
array_of (some (arr js)) = elements js
array_of _ = []

abbrev pub array_at : String → Option Json → List Json
array_at key (some (obj fs)) = array_of (member key fs)
array_at key _ = []

abbrev pub id_at : Json → ℤ
id_at (obj fs) = int_or (pos 0) (member "id" fs)
id_at _ = pos 0

abbrev pub tray_at : ℤ → Json → Tray
tray_at ams_id (obj fs) = tray_entry ams_id (id_at (obj fs)) (entries fs)
tray_at ams_id _ = []

abbrev pub trays_at : ℤ → List Json → List Tray
trays_at ams_id [] = []
trays_at ams_id (j ∷ js) = tray_at ams_id j ∷ trays_at ams_id js

-- Every tray of the units of a payload, each with the number of its unit.
unfoldable pub trays_in : List Json → List Tray
trays_in [] = []
trays_in (j ∷ js) = trays_at (id_at j) (array_at "tray" (some j)) ++ trays_in js

unfoldable pub ids_in : List Json → List ℤ
ids_in [] = []
ids_in (j ∷ js) = id_at j ∷ ids_in js

unfoldable pub unit_ids : List AmsUnit → List ℤ
unit_ids [] = []
unit_ids (u ∷ us) = u.id ∷ unit_ids us

-- Units and trays that are those of the payload.
pub record Reads (js : List Json) (us : List AmsUnit) (ts : List Tray) : Type 0 where
  pub trays : ts ≡ trays_in js
  pub units : unit_ids us ≡ ids_in js
  pub counted : length ts ≡ tray_total us

pub id_given : (o : Option Json) (i : ℤ) → some i ≡ id_of o → int_or (pos 0) o ≡ i
id_given none i e = cc
id_given (some j) i e = by_value (int_of j) e
  where
    by_value : (o : Option ℤ) → some i ≡ o → (elim o as (λ x. ℤ) [ none ↦ pos 0 | some n ↦ n ]) ≡ i
    by_value none e = absurd cc
    by_value (some n) e = cc

pub trays_given : (o : Option Json) (js : List Json) → some js ≡ trays_of o → array_of o ≡ js
unfolding trays_of
trays_given none js e = cc
trays_given (some (arr _)) js e = cc
trays_given (some (str s)) js e = by_text (s == "") e
  where
    by_text :
        (b : Bool) → ◌≡◌ {A = Option (List Json)} (some js) (if b then some [] else none) → [] ≡ js
    by_text true e = cc
    by_text false e = absurd cc
trays_given (some (obj end)) js e = cc
trays_given (some (obj (field _ _ _))) js e = absurd cc
trays_given (some null) js e = absurd cc
trays_given (some (bool _)) js e = absurd cc
trays_given (some (num _)) js e = absurd cc
trays_given (some (decimal _ _)) js e = absurd cc

pub read_trays-trays_at :
    (ams_id : ℤ) (js : List Json) (ts : List Tray)
    → read_trays ams_id js ≡ some ts
    → ts ≡ trays_at ams_id js
unfolding read_trays
read_trays-trays_at ams_id [] ts h = cc
read_trays-trays_at ams_id (obj fs ∷ js) ts h =
    by_id (id_of (member "id" fs)) refl (read_trays ams_id js) (read_trays-trays_at ams_id js) h
  where
    by_id :
        (o : Option ℤ)
        → o ≡ id_of (member "id" fs)
        → (more : Option (List Tray))
        → ((rest : List Tray) → more ≡ some rest → rest ≡ trays_at ams_id js)
        → elim o [
          | none ↦ none
          | some t ↦ elim more [
            | none ↦ none
            | some rest ↦ some (tray_entry ams_id t (entries fs) ∷ rest)
          ]
        ]
          ≡ some ts
        → ts ≡ tray_entry ams_id (id_at (obj fs)) (entries fs) ∷ trays_at ams_id js
    by_id none e more known h = absurd cc
    by_id (some t) e none known h = absurd cc
    by_id (some t) e (some rest) known h =
        let same : tray_entry ams_id t (entries fs) ∷ rest ≡ ts = cc in
        sym same ∙ rw (id_given (member "id" fs) t e, known rest refl) refl
read_trays-trays_at ams_id (null ∷ js) ts h = absurd cc
read_trays-trays_at ams_id (bool _ ∷ js) ts h = absurd cc
read_trays-trays_at ams_id (num _ ∷ js) ts h = absurd cc
read_trays-trays_at ams_id (decimal _ _ ∷ js) ts h = absurd cc
read_trays-trays_at ams_id (str _ ∷ js) ts h = absurd cc
read_trays-trays_at ams_id (arr _ ∷ js) ts h = absurd cc

pub length-trays_at : (ams_id : ℤ) (js : List Json) → length (trays_at ams_id js) ≡ length js
length-trays_at ams_id [] = refl
length-trays_at ams_id (j ∷ js) = ap suc (length-trays_at ams_id js)
