-- ===== src/Stages/Derive.antt =====
-- When each state is derived.
use text.Mathlib.TextEquality.{eq_iff}
use bambu_gateway.Prelude.{
  ◌≡◌, refl, ◌↔◌, inl, inr, String, Bool, true, false, ◌||◌, Option, none, some, [], ◌∷◌, arith,
  ◌==◌, string_eq, is_in, Bool-cases,
}
use bambu_gateway.Prelude.Int.{ℤ, pos, int_leb}
use bambu_gateway.Printer.{preparing, printing, error}
use bambu_gateway.Stages.{
  StageCategory, prepare, calibrate, filament, issue, stage_category, determine_state,
}
use bambu_gateway.Stages.Tables.{stage_name-stage_category}

abbrev pub ended : String → Bool
ended g = is_in g ("FINISH" ∷ "COMPLETED" ∷ []) || is_in g ("CANCELLED" ∷ "FAILED" ∷ [])

abbrev pub is_running : String → Bool
is_running g = is_in g ("RUNNING" ∷ "PRINTING" ∷ [])

abbrev pub is_setup : Option StageCategory → Bool
is_setup (some prepare) = true
is_setup (some calibrate) = true
is_setup (some filament) = true
is_setup _ = false

-- The G-code states that matter are told apart.
running_apart :
    (g : String)
    → is_running g ≡ true
    → (ended g ≡ false) × ((g == "PAUSE") ≡ false) × ((g == "PREPARE") ≡ false)
running_apart g h = elim (Bool-cases (g == "RUNNING")) [
  | inl e ↦ rw ((eq_iff g "RUNNING").0 e) (refl, refl, refl)
  | inr e ↦
      let p : (g == "PRINTING") ≡ true = ground arith in
      rw ((eq_iff g "PRINTING").0 p) (refl, refl, refl)
]

prepare_apart :
    (g : String) → (g == "PREPARE") ≡ true → (ended g ≡ false) × ((g == "PAUSE") ≡ false)
prepare_apart g h = rw ((eq_iff g "PREPARE").0 h) (refl, refl)

-- The error state is derived exactly for an issue stage of a job that has not ended and is not
-- paused by its G-code state.
pub determine_state-error :
    (g : String) (stg layer : ℤ)
    → ((determine_state g stg layer).0 ≡ error)
      ↔ ((ended g ≡ false) × ((g == "PAUSE") ≡ false) × (stage_category stg ≡ some issue))
unfolding determine_state
determine_state-error g stg layer = (λ h. ground arith, λ h. ground arith)

-- The preparing state is derived exactly when a job that runs or prepares is in a preparation,
-- calibration or filament stage before its first layer.
pub determine_state-preparing :
    (g : String) (stg layer : ℤ)
    → ((determine_state g stg layer).0 ≡ preparing) ↔ (
        ((g == "PREPARE" || is_running g) ≡ true)
        × (is_setup (stage_category stg) ≡ true)
        × (int_leb (pos 1) layer ≡ false))
unfolding determine_state
determine_state-preparing g stg layer = (
  λ h. ground arith,
  λ h. ground (arith, running_apart g, prepare_apart g, stage_name-stage_category stg),
)

-- The printing state is derived exactly when a job runs and its stage number is in no table.
pub determine_state-printing :
    (g : String) (stg layer : ℤ)
    → ((determine_state g stg layer).0 ≡ printing)
      ↔ ((is_running g ≡ true) × (stage_category stg ≡ none))
unfolding determine_state
determine_state-printing g stg layer = (
  λ h. ground (arith, running_apart g, stage_name-stage_category stg),
  λ h. ground (arith, running_apart g),
)

-- The error state is derived exactly for an issue stage of a job that has not ended and is not
-- paused by its G-code state; the preparing state exactly when a job that runs or prepares is in a
-- preparation, calibration or filament stage before its first layer; and the printing state exactly
-- when a job runs and its stage number is in no table.
pub determine_state_lem :
    (g : String) (stg layer : ℤ)
    → (((determine_state g stg layer).0 ≡ error)
        ↔ ((ended g ≡ false) × ((g == "PAUSE") ≡ false) × (stage_category stg ≡ some issue)))
      × (((determine_state g stg layer).0 ≡ preparing) ↔ (
          ((g == "PREPARE" || is_running g) ≡ true)
          × (is_setup (stage_category stg) ≡ true)
          × (int_leb (pos 1) layer ≡ false)))
      × (((determine_state g stg layer).0 ≡ printing)
          ↔ ((is_running g ≡ true) × (stage_category stg ≡ none)))
determine_state_lem g stg layer = (
  determine_state-error g stg layer,
  determine_state-preparing g stg layer,
  determine_state-printing g stg layer,
)
