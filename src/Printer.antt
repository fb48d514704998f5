-- ===== src/Printer.antt =====
-- The printer models of app/models.py. Temperatures and the camera's credentials are left out:
-- nothing that is modelled reads them.
use bambu_gateway.Prelude.{String, Bool, Option, List, Eq, discrete_eq}
use bambu_gateway.Prelude.Int.{ℤ}

pub data PrinterState : Type 0 where
  offline idle preparing printing paused finished cancelled error : PrinterState

abbrev pub PrinterState-discrete : Discrete PrinterState
PrinterState-discrete = hlevel

instance abbrev pub state_eq : Eq PrinterState
state_eq = discrete_eq PrinterState-discrete

pub record PrintJob : Type 0 where
  pub file_name : String
  pub progress : ℤ
  pub remaining_minutes : ℤ
  pub current_layer : ℤ
  pub total_layers : ℤ
  pub gcode_start_time : String

pub record HmsCode : Type 0 where
  pub attr : String
  pub code : String

pub record PrinterStatus : Type 0 where
  pub id : String
  pub name : String
  pub machine_model : String
  pub default_plate_type : String
  pub online : Bool
  pub state : PrinterState
  pub stg_cur : ℤ
  pub stage_name : Option String
  pub stage_category : Option String
  pub speed_level : ℤ
  pub active_tray : Option ℤ
  pub job : Option PrintJob
  pub hms_codes : List HmsCode
  pub print_error : ℤ
  pub error_message : Option String
