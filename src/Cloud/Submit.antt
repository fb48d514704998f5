-- ===== src/Cloud/Submit.antt =====
-- `submit_print` of app/cloud/cloud_printer.py, `run_cloud_print` of app/cloud/submit.py, and
-- app/cloud/error_codes.py. The generator is the list of its frames; what the host returns and the
-- events that come before each timeout are arguments.
pub mod Frames
use bambu_gateway.Prelude.{
  ℕ, String, Bool, true, false, Option, none, some, List, [], ◌∷◌, if◌then◌else◌, ◌==◌,
}
use bambu_gateway.Prelude.Int.{ℤ, pos, negsuc, int_eq}
use bambu_gateway.Prelude.Show.{show_int, ◌<>◌}
use bambu_gateway.Prelude.Dict
use bambu_gateway.Prelude.Dict.{Dict}

abbrev error_messages : Dict ℤ String
error_messages =
    (negsuc 0, "Bambu plugin not ready (agent not bootstrapped)")
    ∷ (negsuc 97, "Another cloud print job is already in flight")
    ∷ (negsuc 2039, "File too large for Bambu cloud upload")
    ∷ (negsuc 2109, "Bambu cloud OSS upload failed")
    ∷ (negsuc 2119, "Bambu cloud rejected the print job")
    ∷ (negsuc 2059, "Timed out waiting for printer to acknowledge cloud job")
    ∷ (negsuc 4019, "LAN FTP upload failed (cloud fallback should engage)")
    ∷ (negsuc 15, "Uploaded file checksum mismatch")
    ∷ []

unfoldable pub error_message : ℤ → String
error_message code = elim (Dict.lookup code error_messages) [
  | none ↦ "Bambu plugin error " <> show_int code
  | some text ↦ text
]

pub data Frame : Type 0 where
  progress : ℤ → ℤ → String → Frame
  done : Frame
  error : ℤ → String → Frame

-- One OnUpdateStatus event, or the timeout of a wait for it.
pub data Wait : Type 0 where
  event : ℤ → ℤ → String → Wait
  timeout : Wait

abbrev pub print_in_flight_code : ℤ
print_in_flight_code = negsuc 1008

abbrev in_flight : Frame
in_flight = error print_in_flight_code "A print is already starting on this printer"

abbrev timed_out : Frame
timed_out = error (negsuc 98) "Timed out waiting for cloud print progress (no event for 900s)"

-- The loop; when the waits run out, the generator still waits.
unfoldable pub relay : List Wait → List Frame
relay [] = []
relay (timeout ∷ waits) = timed_out ∷ []
relay (event stage code msg ∷ waits) =
    let rest = relay waits in
    if stage == pos 6
    then done ∷ []
    else if stage == pos 7
    then error code (error_message code) ∷ []
    else progress stage code msg ∷ rest

-- Whether the printer's slot is taken before, and the return code of `start_print`.
unfoldable pub submit_print : Bool → ℤ → List Wait → List Frame
submit_print true rc waits = in_flight ∷ []
submit_print false rc waits = if rc == pos 0 then relay waits else error rc (error_message rc) ∷ []

-- `none` is a job that has reached the printer.
unfoldable pub run_cloud_print : List Frame → Option Frame
run_cloud_print [] = some (error (negsuc 98) "Cloud submission ended without a terminal frame")
run_cloud_print (progress stage code msg ∷ frames) = run_cloud_print frames
run_cloud_print (done ∷ frames) = none
run_cloud_print (error code msg ∷ frames) = some (error code msg)
