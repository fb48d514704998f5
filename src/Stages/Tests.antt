-- ===== src/Stages/Tests.antt =====
-- Derived states of sample reports.
use bambu_gateway.Prelude.{◌≡◌, ◌↔◌, ◌||◌, ◌==◌, refl, true, false, none, some, String, string_eq}
use bambu_gateway.Prelude.Int.{pos, negsuc, int_leb}
use bambu_gateway.Prelude.Dict
use bambu_gateway.Printer.{preparing, printing, paused, error}
use bambu_gateway.Stages.{
  determine_state, stage_name, stage_category, filament, issue, paused_stage,
}
use bambu_gateway.Stages.Derive.{ended, is_running, is_setup, determine_state_lem}

mid_print_change :
    determine_state "RUNNING" (pos 4) (pos 12) ≡ (paused, some filament, some "Changing filament")
unfolding determine_state stage_name stage_category Dict.lookup
mid_print_change = refl

plain_pause : determine_state "PAUSE" (negsuc 0) (pos 3) ≡ (paused, some paused_stage, none)
unfolding determine_state stage_name stage_category Dict.lookup
plain_pause = refl

determine_state_lem_example :
    (((determine_state "RUNNING" (pos 14) (pos 0)).0 ≡ error) ↔ (
      (ended "RUNNING" ≡ false)
      × ((◌==◌ {A = String} "RUNNING" "PAUSE") ≡ false)
      × (stage_category (pos 14) ≡ some issue)))
    × (((determine_state "RUNNING" (pos 14) (pos 0)).0 ≡ preparing) ↔ (
        ((◌==◌ {A = String} "RUNNING" "PREPARE" || is_running "RUNNING") ≡ true)
        × (is_setup (stage_category (pos 14)) ≡ true)
        × (int_leb (pos 1) (pos 0) ≡ false)))
    × (((determine_state "RUNNING" (pos 14) (pos 0)).0 ≡ printing)
        ↔ ((is_running "RUNNING" ≡ true) × (stage_category (pos 14) ≡ none)))
determine_state_lem_example = determine_state_lem "RUNNING" (pos 14) (pos 0)
