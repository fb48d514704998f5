-- ===== src/ConfigStore/Tests.antt =====
-- Printers of the environment and of the file.
use bambu_gateway.Prelude.{◌≡◌, refl, none, [], ◌∷◌}
use bambu_gateway.Prelude.Show.{strip_text, lstrip_text, reverse_text}
use bambu_gateway.ConfigStore.{PrinterConfig, found, missing, save, load, get_printers, split_parts}
use bambu_gateway.ConfigStore.Durable.{load-save}

abbrev printer : PrinterConfig
printer = record {
  ip = "192.168.1.9";
  access_code = "12345678";
  serial = "01S00A1234";
  name = "";
  machine_model = "";
  default_plate_type = "Textured PEI Plate";
}

load-save_example :
    load none (save (printer ∷ []) missing) ≡ (found (printer ∷ []), save (printer ∷ []) missing)
load-save_example = load-save none (printer ∷ []) missing

mismatch : get_printers "10.0.0.1, 10.0.0.2" "a" "s1,s2" ≡ none
unfolding get_printers split_parts strip_text lstrip_text reverse_text
mismatch = refl
