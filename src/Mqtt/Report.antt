-- ===== src/Mqtt/Report.antt =====
-- `apply_print_payload` and `_bit_enabled` of app/mqtt_client.py. `Live` is the `PrinterStatus`, with
-- the fields that only reports write beside those of `Printer`. What the code assigns before an
-- exception stays assigned: a step that raises returns the state that it leaves.
use Prim.Native.Char.{code}
use bambu_gateway.Prelude.{
  ℕ, ◌/◌, ◌%◌, ◌^◌, String, Bool, true, false, ◌&&◌, ◌||◌, Option, none, some, List, [], ◌∷◌,
  if◌then◌else◌, nat_beq, ◌==◌, is_in, string_eq,
}
use bambu_gateway.Prelude.Int.{ℤ, pos, negsuc, int_eq}
use bambu_gateway.Prelude.Json.{Json, null, bool, num, str, arr, obj, Fields, elements, member}
use bambu_gateway.Prelude.Text.{parse_int, parse_hex}
use bambu_gateway.Prelude.Show.{lower, strip_text}
use bambu_gateway.Printer.{
  idle, finished, cancelled, paused, error, state_eq, PrintJob, HmsCode, PrinterStatus,
}
use bambu_gateway.Stages.{
  StageCategory, prepare, calibrate, paused_stage, filament, issue, Derived, determine_state,
}
use bambu_gateway.HmsCodes.{Descriptions, current_error_description}
use bambu_gateway.Filament.Validation.{int_of}

-- A float, m / 10 ^ k.
abbrev pub Real : Type 0
Real = ℤ × ℕ

pub record Live : Type 0 where
  pub status : PrinterStatus
  pub nozzle_temp : Real
  pub nozzle_target : Real
  pub bed_temp : Real
  pub bed_target : Real
  pub ams_auto_refill_supported : Option Bool
  pub ams_auto_refill_enabled : Option Bool

-- A step is done, or raises; `untyped` is a value of another type in a field that holds a text,
-- which Python stores and this model has no place for.
pub data Applied : Type 0 where
  fine raised untyped : Live → Applied

infixl 5 ◌>>=◌
abbrev pub ◌>>=◌ : Applied → (Live → Applied) → Applied
fine l >>= f = f l
raised l >>= f = raised l
untyped l >>= f = untyped l

abbrev pub Change : Type 0
Change = Live → Applied

-- One after another, up to the first that raises.
unfoldable pub run : List Change → Live → Applied
run [] l = fine l
run (f ∷ fs) l = f l >>= run fs

unfoldable pub on_key : String → Fields → (Json → Live → Applied) → Live → Applied
on_key key fs f l = elim (member key fs) [ none ↦ fine l | some j ↦ f j l ]

-- `value >> bit & 1` of an integer: the negative ones go by two's complement.
unfoldable pub bit_of : ℤ → ℕ → Bool
bit_of (pos n) bit = nat_beq (n / 2 ^ bit % 2) 1
bit_of (negsuc n) bit = nat_beq (n / 2 ^ bit % 2) 0

abbrev pub has_hex_prefix : String → Bool
has_hex_prefix s = elim (lower s) [
  | String.[] ↦ false
  | String.◌∷◌ c rest ↦ elim rest [
    | String.[] ↦ false
    | String.◌∷◌ x more ↦ nat_beq (code c) b'0' && nat_beq (code x) b'x'
  ]
]

abbrev pub int_text : String → Option ℤ
int_text s = if s == "" then none else if has_hex_prefix s then parse_hex s else parse_int s

abbrev pub bit_option : ℕ → Option ℤ → Option Bool
bit_option bit none = none
bit_option bit (some n) = some (bit_of n bit)

-- The text of a float, a list or a dict is no integer.
unfoldable pub bit_enabled : Json → ℕ → Option Bool
bit_enabled (num n) bit = some (bit_of n bit)
bit_enabled (bool b) bit = some (bit_of (if b then pos 1 else pos 0) bit)
bit_enabled (str s) bit = bit_option bit (int_text (strip_text s))
bit_enabled _ bit = none

abbrev pub on_status : (PrinterStatus → PrinterStatus) → Live → Live
on_status f l = record l { status = f l.status }

-- The integers whose error is caught.
unfoldable pub set_stage : Json → Live → Applied
set_stage j l = elim (int_of j) [
  | none ↦ fine l
  | some n ↦ fine (on_status (λ s. record s { stg_cur = n }) l)
]

unfoldable pub set_speed : Json → Live → Applied
set_speed j l = elim (int_of j) [
  | none ↦ fine l
  | some n ↦ fine (on_status (λ s. record s { speed_level = n }) l)
]

unfoldable pub set_supported : Json → Live → Applied
set_supported (bool b) l = fine (record l { ams_auto_refill_supported = some b })
set_supported _ l = fine l

abbrev pub bit_at : String → ℕ → Fields → Option Bool
bit_at key bit fs = elim (member key fs) [ none ↦ none | some j ↦ bit_enabled j bit ]

abbrev pub or_bit : Option Bool → Option Bool → Option Bool
or_bit none other = other
or_bit (some b) other = some b

-- `cfg` bit 18, or else `home_flag` bit 10.
unfoldable pub reported_refill : Fields → Option Bool
reported_refill fs = or_bit (bit_at "cfg" 18 fs) (bit_at "home_flag" 10 fs)

unfoldable pub set_refill : Option Bool → Live → Live
set_refill none l = l
set_refill (some b) l = record l { ams_auto_refill_enabled = some b }

-- An attribute that `float` is assigned to; `none` of `read` is its exception.
unfoldable pub real_field : (Json → Option Real) → (Real → Live → Live) → Json → Live → Applied
real_field read put j l = elim (read j) [ none ↦ raised l | some x ↦ fine (put x l) ]

abbrev pub empty_job : PrintJob
empty_job = record {
  file_name = "";
  progress = pos 0;
  remaining_minutes = pos 0;
  current_layer = pos 0;
  total_layers = pos 0;
  gcode_start_time = "";
}

abbrev pub job_or_new : Option PrintJob → PrintJob
job_or_new none = empty_job
job_or_new (some job) = job

abbrev pub put_job : PrintJob → Live → Live
put_job job l = on_status (λ s. record s { job = some job }) l

-- `job.<field> = int(...)`, whose exception is not caught.
unfoldable pub int_field : (ℤ → PrintJob → PrintJob) → Json → Live → Applied
int_field put j l = elim (int_of j) [
  | none ↦ raised l
  | some n ↦ fine (put_job (put n (job_or_new l.status.job)) l)
]

unfoldable pub set_file_name : Json → Live → Applied
set_file_name (str s) l = fine (put_job (record (job_or_new l.status.job) { file_name = s }) l)
set_file_name _ l = untyped l

-- `str(value)` is an argument: of a text it is the text.
unfoldable pub set_start_time : (Json → String) → Json → Live → Applied
set_start_time text j l =
    fine (put_job (record (job_or_new l.status.job) { gcode_start_time = text j }) l)

abbrev pub job_keys : List String
job_keys =
    "subtask_name" ∷ "mc_percent" ∷ "mc_remaining_time" ∷ "layer_num" ∷ "total_layer_num"
    ∷ "gcode_start_time" ∷ []

abbrev pub is_some {ℓ} : {A : Type ℓ} → Option A → Bool
is_some none = false
is_some (some _) = true

unfoldable pub any_key : List String → Fields → Bool
any_key [] fs = false
any_key (k ∷ ks) fs = is_some (member k fs) || any_key ks fs

-- The job that a report with any of the keys has.
unfoldable pub with_job : Fields → Live → Live
with_job fs l = if any_key job_keys fs then put_job (job_or_new l.status.job) l else l

abbrev pub job_changes : (Json → String) → Fields → List Change
job_changes text fs =
    on_key "subtask_name" fs set_file_name
    ∷ on_key "mc_percent" fs (int_field (λ n job. record job { progress = n }))
    ∷ on_key "mc_remaining_time" fs (int_field (λ n job. record job { remaining_minutes = n }))
    ∷ on_key "layer_num" fs (int_field (λ n job. record job { current_layer = n }))
    ∷ on_key "total_layer_num" fs (int_field (λ n job. record job { total_layers = n }))
    ∷ on_key "gcode_start_time" fs (set_start_time text)
    ∷ []

unfoldable pub apply_job : (Json → String) → Fields → Change
unfolding run
apply_job text fs l = run (job_changes text fs) (with_job fs l)

-- An entry with two texts.
abbrev pub code_of : Option Json → Option Json → List HmsCode → List HmsCode
code_of (some (str attr)) (some (str code)) rest = record { attr = attr; code = code } ∷ rest
code_of _ _ rest = rest

unfoldable pub hms_entries : List Json → List HmsCode
hms_entries [] = []
hms_entries (obj fs ∷ js) = code_of (member "attr" fs) (member "code" fs) (hms_entries js)
hms_entries (_ ∷ js) = hms_entries js

unfoldable pub parsed_hms : Json → List HmsCode
parsed_hms (arr js) = hms_entries (elements js)
parsed_hms _ = []

unfoldable pub set_hms : Json → Live → Applied
set_hms j l = fine (on_status (λ s. record s { hms_codes = parsed_hms j }) l)

-- `print_info.get(key)`, with a null for a missing key.
abbrev pub present : Option Json → Option Json
present none = none
present (some null) = none
present (some j) = some j

abbrev pub or_value : Option Json → Option Json → Option Json
or_value none other = other
or_value (some j) other = some j

-- `print_error`, or else the code of the motion controller.
unfoldable pub error_value : Fields → Option Json
error_value fs =
    or_value (present (member "print_error" fs)) (present (member "mc_print_error_code" fs))

unfoldable pub set_error_code : Option ℤ → Live → Live
set_error_code none l = l
set_error_code (some n) l = on_status (λ s. record s { print_error = n }) l

abbrev pub int_value : Option Json → Option ℤ
int_value none = none
int_value (some j) = int_of j

unfoldable pub category_text : Option StageCategory → Option String
category_text none = none
category_text (some prepare) = some "prepare"
category_text (some calibrate) = some "calibrate"
category_text (some paused_stage) = some "paused"
category_text (some filament) = some "filament"
category_text (some issue) = some "issue"

abbrev pub layer_of : Option PrintJob → ℤ
layer_of none = pos 0
layer_of (some job) = job.current_layer

abbrev pub put_derived : Derived → Live → Live
put_derived (state, category, name) l =
    on_status
      (λ s. record s { state = state; stage_category = category_text category; stage_name = name })
      l

unfoldable pub derive : String → Live → Live
derive gcode_state l =
    put_derived (determine_state gcode_state l.status.stg_cur (layer_of l.status.job)) l

-- A description while the printer is paused or at an error.
unfoldable pub describe : Descriptions → Live → Live
describe t l =
    on_status
      (λ s. record s {
        error_message =
            if is_in s.state (paused ∷ error ∷ [])
            then current_error_description t s.hms_codes s.print_error
            else none;
      })
      l

abbrev pub without_progress : Option PrintJob → Option PrintJob
without_progress none = none
without_progress (some job) = if job.progress == pos 0 then none else some job

-- An idle printer has no job at zero percent.
unfoldable pub drop_job : Live → Live
drop_job l =
    on_status
      (λ s. record s {
        job =
            if is_in s.state (idle ∷ finished ∷ cancelled ∷ [])
            then without_progress s.job
            else s.job;
      })
      l
