-- ===== src/ConfigStore/Durable.antt =====
-- The configurations outlive the gateway.
use bambu_gateway.Prelude.{
  ◌≡◌, refl, sym, ap, ◌∙◌, String, Bool, true, false, Option, List, [], ◌∷◌, ◌==◌, string_eq,
  if◌then◌else◌,
}
use bambu_gateway.Prelude.Json.{Json, str, arr, Fields, end, field, elements, member}
use bambu_gateway.Prelude.Dict
use bambu_gateway.ConfigStore.{
  PrinterConfig, unless_blank, serialize_one, serialize, found, ◌>>=◌, deserialize_one, deserialize,
  ConfigFile, holding, save, load,
}

-- The fields of one configuration, with the optional ones by their tests.
fields_of : PrinterConfig → Bool → Bool → Fields
fields_of c no_model no_plate = field "serial" (str c.serial) (
    field "ip" (str c.ip) (
      field "access_code" (str c.access_code) (
        field "name" (str c.name) (
          let plate =
            if no_plate then end else field "default_plate_type" (str c.default_plate_type) end in
          if no_model then plate else field "machine_model" (str c.machine_model) plate))))

empty_text : (s : String) → (s == "") ≡ true → s ≡ ""
empty_text s e = let (same, _) = string_eq.eqb_iff s "" in same e

by_tests :
    (c : PrinterConfig) (no_model no_plate : Bool)
    → (c.machine_model == "") ≡ no_model
    → (c.default_plate_type == "") ≡ no_plate
    → deserialize_one (fields_of c no_model no_plate) ≡ found c
unfolding deserialize_one member Dict.lookup fields_of
by_tests c true true e f =
    ap (λ m. found (record c { machine_model = m; default_plate_type = "" })) (sym (empty_text _ e))
    ∙ ap (λ p. found (record c { default_plate_type = p })) (sym (empty_text _ f))
by_tests c true false e f = ap (λ m. found (record c { machine_model = m })) (sym (empty_text _ e))
by_tests c false true e f =
    ap (λ p. found (record c { default_plate_type = p })) (sym (empty_text _ f))
by_tests c false false e f = refl

by_fields :
    (c : PrinterConfig) (cs : List PrinterConfig) (js : List Json)
    → deserialize js ≡ found cs
    → deserialize (serialize_one c ∷ js) ≡ found (c ∷ cs)
unfolding deserialize serialize_one unless_blank fields_of
by_fields c cs js h =
    ap (λ r. r >>= (λ c. deserialize js >>= (λ cs. found (c ∷ cs))))
      (by_tests c (c.machine_model == "") (c.default_plate_type == "") refl refl)
    ∙ ap (λ r. r >>= (λ cs. found (c ∷ cs))) h

deserialize-serialize : (cs : List PrinterConfig) → deserialize (elements (serialize cs)) ≡ found cs
unfolding serialize deserialize
deserialize-serialize [] = refl
deserialize-serialize (c ∷ cs) = by_fields c cs (elements (serialize cs)) (deserialize-serialize cs)

-- Whatever the file held and whatever the environment says, a load after a save gives the very
-- configurations that were saved, in order and with their optional fields, and leaves the file.
pub load-save :
    (env : Option (List PrinterConfig)) (cs : List PrinterConfig) (file : ConfigFile)
    → load env (save cs file) ≡ (found cs, save cs file)
unfolding load save
load-save env cs file = ap (λ r. (r, holding (arr (serialize cs)))) (deserialize-serialize cs)
