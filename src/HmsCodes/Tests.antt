-- ===== src/HmsCodes/Tests.antt =====
-- A sample table, and when a pause has a reason.
use bambu_gateway.Prelude.{◌≡◌, refl, some, List, [], ◌∷◌}
use bambu_gateway.Prelude.Int.{int_eq}
use bambu_gateway.Prelude.Dict
use bambu_gateway.Prelude.Show.{upper, without_underscores}
use bambu_gateway.Printer.{HmsCode}
use bambu_gateway.HmsCodes.{Descriptions, describe_hms_code}

abbrev table : Descriptions
table = record { hms_codes = ("03002000", "The hotend is clogged") ∷ []; print_errors = [] }

abbrev reported : List HmsCode
reported = record { attr = "0300_2000"; code = "1" } ∷ []

known_code : describe_hms_code table "0300_2000" ≡ some "The hotend is clogged"
unfolding describe_hms_code Dict.lookup upper without_underscores
known_code = refl
