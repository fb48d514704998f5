-- ===== src/Stages.antt =====
-- app/preparation_stages.py. A stage number is an integer, -1 where the printer has none.
pub mod Tables
pub mod Derive
mod Tests
use bambu_gateway.Prelude.{
  ℕ, String, Bool, true, false, ◌&&◌, ◌||◌, Option, none, some, List, [], ◌∷◌, Eq, discrete_eq,
  is_in, if◌then◌else◌, ◌==◌, nat_eq, string_eq,
}
use bambu_gateway.Prelude.Int.{ℤ, pos, negsuc, int_leb}
use bambu_gateway.Prelude.Dict
use bambu_gateway.Prelude.Dict.{Dict}
use bambu_gateway.Printer.{
  PrinterState, idle, preparing, printing, paused, finished, cancelled, error,
}

pub data StageCategory : Type 0 where
  prepare calibrate paused_stage filament issue : StageCategory

abbrev pub StageCategory-discrete : Discrete StageCategory
StageCategory-discrete = hlevel

instance abbrev pub category_eq : Eq StageCategory
category_eq = discrete_eq StageCategory-discrete

abbrev pub stage_names : Dict ℕ String
stage_names =
    (1, "Auto bed leveling")
    ∷ (2, "Preheating heatbed")
    ∷ (3, "Vibration compensation")
    ∷ (4, "Changing filament")
    ∷ (5, "M400 pause")
    ∷ (6, "Filament runout pause")
    ∷ (7, "Heating hotend")
    ∷ (8, "Calibrating extrusion")
    ∷ (9, "Scanning bed surface")
    ∷ (10, "Inspecting first layer")
    ∷ (11, "Identifying build plate")
    ∷ (12, "Calibrating micro lidar")
    ∷ (13, "Homing toolhead")
    ∷ (14, "Cleaning nozzle tip")
    ∷ (15, "Checking extruder temp")
    ∷ (16, "Paused by user")
    ∷ (17, "Front cover falling")
    ∷ (18, "Calibrating micro lidar")
    ∷ (19, "Calibrating extrusion flow")
    ∷ (20, "Nozzle temp malfunction")
    ∷ (21, "Heatbed temp malfunction")
    ∷ (22, "Filament unloading")
    ∷ (23, "Paused: skipped step")
    ∷ (24, "Filament loading")
    ∷ (25, "Calibrating motor noise")
    ∷ (26, "Paused: AMS lost")
    ∷ (27, "Paused: low fan speed")
    ∷ (28, "Chamber temp control error")
    ∷ (29, "Cooling chamber")
    ∷ (30, "Paused by G-code")
    ∷ (31, "Motor noise calibration")
    ∷ (32, "Paused: nozzle filament covered")
    ∷ (33, "Paused: cutter error")
    ∷ (34, "Paused: first layer error")
    ∷ (35, "Paused: nozzle clog")
    ∷ (36, "Checking absolute accuracy")
    ∷ (37, "Absolute accuracy calibration")
    ∷ (38, "Checking absolute accuracy")
    ∷ (39, "Calibrating nozzle offset")
    ∷ (40, "Bed leveling (high temp)")
    ∷ (41, "Checking quick release")
    ∷ (42, "Checking door and cover")
    ∷ (43, "Laser calibration")
    ∷ (44, "Checking platform")
    ∷ (45, "Checking camera position")
    ∷ (46, "Calibrating camera")
    ∷ (47, "Bed leveling phase 1")
    ∷ (48, "Bed leveling phase 2")
    ∷ (49, "Heating chamber")
    ∷ (50, "Cooling heatbed")
    ∷ (51, "Printing calibration lines")
    ∷ (52, "Checking material")
    ∷ (53, "Live view camera calibration")
    ∷ (54, "Waiting for heatbed temp")
    ∷ (55, "Checking material position")
    ∷ (56, "Cutting module offset calibration")
    ∷ (57, "Measuring surface")
    ∷ (58, "Thermal preconditioning")
    ∷ (59, "Homing blade holder")
    ∷ (60, "Calibrating camera offset")
    ∷ (61, "Calibrating blade holder")
    ∷ (62, "Hotend pick and place test")
    ∷ (63, "Waiting for chamber temp")
    ∷ (64, "Preparing hotend")
    ∷ (65, "Calibrating nozzle clump detection")
    ∷ (66, "Purifying chamber air")
    ∷ (77, "Preparing AMS")
    ∷ []

abbrev pub prepare_stages : List ℕ
prepare_stages =
    1 ∷ 2 ∷ 3 ∷ 7 ∷ 9 ∷ 11 ∷ 13 ∷ 14 ∷ 15 ∷ 29 ∷ 40 ∷ 41 ∷ 42 ∷ 47 ∷ 48 ∷ 49 ∷ 50 ∷ 51 ∷ 52 ∷ 54
    ∷ 55 ∷ 57 ∷ 58 ∷ 59 ∷ 63 ∷ 64 ∷ 66 ∷ 77 ∷ []

abbrev pub calibrate_stages : List ℕ
calibrate_stages =
    8 ∷ 10 ∷ 12 ∷ 18 ∷ 19 ∷ 25 ∷ 31 ∷ 36 ∷ 37 ∷ 38 ∷ 39 ∷ 43 ∷ 44 ∷ 45 ∷ 46 ∷ 53 ∷ 56 ∷ 60 ∷ 61 ∷ 62
    ∷ 65 ∷ []

abbrev pub paused_stages : List ℕ
paused_stages = 5 ∷ 16 ∷ 30 ∷ []

abbrev pub filament_stages : List ℕ
filament_stages = 4 ∷ 22 ∷ 24 ∷ []

abbrev pub issue_stages : List ℕ
issue_stages = 6 ∷ 17 ∷ 20 ∷ 21 ∷ 23 ∷ 26 ∷ 27 ∷ 28 ∷ 32 ∷ 33 ∷ 34 ∷ 35 ∷ []

-- A negative number is in none of the tables.
unfoldable pub stage_name : ℤ → Option String
stage_name (pos n) = Dict.lookup n stage_names
stage_name (negsuc n) = none

unfoldable pub stage_category : ℤ → Option StageCategory
stage_category (pos n) =
    if is_in n prepare_stages
    then some prepare
    else if is_in n calibrate_stages
    then some calibrate
    else if is_in n paused_stages
    then some paused_stage
    else if is_in n filament_stages
    then some filament
    else if is_in n issue_stages
    then some issue
    else none
stage_category (negsuc n) = none

abbrev pub Derived : Type 0
Derived = PrinterState × Option StageCategory × Option String

abbrev or_paused : Option StageCategory → Option StageCategory
or_paused none = some paused_stage
or_paused (some c) = some c

abbrev pub is_some {ℓ} : {A : Type ℓ} → Option A → Bool
is_some none = false
is_some (some _) = true

-- The last test of `determine_state`, and its default.
abbrev running : String → Derived
running gcode_state =
    if is_in gcode_state ("RUNNING" ∷ "PRINTING" ∷ [])
    then (printing, none, none)
    else (idle, none, none)

-- The prep, calibration and filament stages of `determine_state`.
abbrev staged : String → ℤ → StageCategory → Option String → Derived
staged gcode_state layer_num cat name =
    if gcode_state == "PREPARE" || (is_in gcode_state ("RUNNING" ∷ "PRINTING" ∷ []) && is_some name)
    then if int_leb (pos 1) layer_num then (paused, some cat, name) else (preparing, some cat, name)
    else running gcode_state

abbrev by_category : String → ℤ → Option StageCategory → Option String → Derived
by_category gcode_state layer_num none name = running gcode_state
by_category gcode_state layer_num (some issue) name = (error, some issue, name)
by_category gcode_state layer_num (some paused_stage) name = (paused, some paused_stage, name)
by_category gcode_state layer_num (some prepare) name = staged gcode_state layer_num prepare name
by_category gcode_state layer_num (some calibrate) name =
    staged gcode_state layer_num calibrate name
by_category gcode_state layer_num (some filament) name = staged gcode_state layer_num filament name

unfoldable pub determine_state : String → ℤ → ℤ → Derived
determine_state gcode_state stg_cur layer_num =
    if is_in gcode_state ("FINISH" ∷ "COMPLETED" ∷ [])
    then (finished, none, none)
    else if is_in gcode_state ("CANCELLED" ∷ "FAILED" ∷ [])
    then (cancelled, none, none)
    else (let cat = stage_category stg_cur in
        let name = stage_name stg_cur in
        if gcode_state == "PAUSE"
        then (paused, or_paused cat, name)
        else by_category gcode_state layer_num cat name)
