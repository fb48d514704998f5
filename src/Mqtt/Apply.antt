-- ===== src/Mqtt/Apply.antt =====
-- `apply_print_payload` as a whole. The clock is read once.
pub mod Rules
pub mod Speed
pub mod Consistent
use bambu_gateway.Prelude.{
  ℕ, String, Bool, true, false, ◌||◌, Option, none, some, List, [], ◌∷◌, if◌then◌else◌, leb,
  string_eq,
}
use bambu_gateway.Prelude.Int.{ℤ, pos}
use bambu_gateway.Prelude.Json.{Json, str, Fields, member}
use bambu_gateway.HmsCodes.{Descriptions}
use bambu_gateway.Mqtt.Report.{
  Real, Live, Applied, fine, raised, untyped, Change, run, on_key, set_stage, set_speed,
  set_supported, reported_refill, set_refill, real_field, apply_job, set_hms, error_value,
  int_value, set_error_code, present, is_some, derive, describe, drop_job,
}

-- Python's `float` and `str` of a JSON value, and the texts of the data file.
pub record Builtins : Type 0 where
  pub float_of : Json → Option Real
  pub text_of : Json → String
  pub descriptions : Descriptions

pub record Holds : Type 0 where
  pub now : ℕ
  pub speed_until : ℕ
  pub refill_until : ℕ

unfoldable pub speed_part : Holds → Fields → Change
speed_part h fs l = if leb h.speed_until h.now then on_key "spd_lvl" fs set_speed l else fine l

unfoldable pub refill_part : Holds → Fields → Change
refill_part h fs l =
    if leb h.refill_until h.now then fine (set_refill (reported_refill fs) l) else fine l

abbrev pub mode_changes : Holds → Fields → List Change
mode_changes h fs =
    on_key "stg_cur" fs set_stage
    ∷ speed_part h fs
    ∷ on_key "support_filament_backup" fs set_supported
    ∷ refill_part h fs
    ∷ []

abbrev pub temperature_changes : (Json → Option Real) → Fields → List Change
temperature_changes read fs =
    on_key "nozzle_temper" fs (real_field read (λ x l. record l { nozzle_temp = x }))
    ∷ on_key "nozzle_target_temper" fs (real_field read (λ x l. record l { nozzle_target = x }))
    ∷ on_key "bed_temper" fs (real_field read (λ x l. record l { bed_temp = x }))
    ∷ on_key "bed_target_temper" fs (real_field read (λ x l. record l { bed_target = x }))
    ∷ []

unfoldable pub put_error : Fields → Change
put_error fs l = fine (set_error_code (int_value (error_value fs)) l)

-- The G-code state after the report; the outer `none` is a value that is no text.
unfoldable pub new_gcode_state : String → Option Json → Option String
new_gcode_state old none = some old
new_gcode_state old (some (str s)) = some s
new_gcode_state old (some _) = none

abbrev pub derives : Fields → Bool
derives fs = is_some (present (member "gcode_state" fs)) || is_some (member "stg_cur" fs)

-- The derived fields, at the end.
unfoldable pub finish_report : Descriptions → String → Fields → Change
finish_report t gcode_state fs l =
    fine (drop_job (describe t (if derives fs then derive gcode_state l else l)))

abbrev pub all_changes : Builtins → Holds → String → Fields → List Change
all_changes py h gcode_state fs =
    run (mode_changes h fs)
    ∷ run (temperature_changes py.float_of fs)
    ∷ apply_job py.text_of fs
    ∷ on_key "hms" fs set_hms
    ∷ put_error fs
    ∷ finish_report py.descriptions gcode_state fs
    ∷ []

unfoldable pub apply_with : Builtins → Holds → String → Fields → Change
apply_with py h gcode_state fs = run (all_changes py h gcode_state fs)

pub data PayloadEnd : Type 0 where
  applied : Live → String → PayloadEnd
  failed ill_typed : Live → PayloadEnd

abbrev pub ends_with : String → Applied → PayloadEnd
ends_with g (fine l) = applied l g
ends_with g (raised l) = failed l
ends_with g (untyped l) = ill_typed l

unfoldable pub apply_print_payload : Builtins → Holds → String → Fields → Live → PayloadEnd
apply_print_payload py h old fs l = elim (new_gcode_state old (present (member "gcode_state" fs))) [
  | none ↦ ill_typed l
  | some g ↦ ends_with g (apply_with py h g fs l)
]
