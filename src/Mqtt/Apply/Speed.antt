-- ===== src/Mqtt/Apply/Speed.antt =====
-- The hold-off after a change of speed.
use bambu_gateway.Prelude.{
  ◌<◌, ◌≡◌, refl, String, Bool, Option, none, some, arith, if_both, leb, string_eq,
}
use bambu_gateway.Prelude.Int.{ℤ}
use bambu_gateway.Prelude.Json.{Json, null, bool, num, decimal, str, arr, obj, Fields, member}
use bambu_gateway.Printer.{PrintJob}
use bambu_gateway.Mqtt.Report.{
  Real, Live, Applied, fine, raised, untyped, run, set_stage, set_supported, reported_refill,
  set_refill, real_field, apply_job, set_hms, error_value, int_value, set_error_code, present,
  derive, describe, drop_job, int_field, set_file_name, set_start_time, with_job, any_key, job_keys,
  job_changes, job_or_new, put_job,
}
use bambu_gateway.HmsCodes.{Descriptions}
use bambu_gateway.Filament.Validation.{int_of}
use bambu_gateway.Mqtt.Apply.{
  Builtins, Holds, speed_part, refill_part, mode_changes, temperature_changes, put_error,
  apply_with, finish_report, derives, all_changes, PayloadEnd, applied, failed, ill_typed,
  ends_with, new_gcode_state, apply_print_payload,
}
use bambu_gateway.Mqtt.Apply.Rules.{Always, Keeps, run-Keeps, on_key-Keeps, option_case}

module _ (v : ℤ) where
  abbrev At : Live → Type 0
  At l = l.status.speed_level ≡ v

  real_field-Keeps :
      (read : Json → Option Real) (put : Real → Live → Live)
      → ((x : Real) (l : Live) → At l → At (put x l))
      → (j : Json) → Keeps At (real_field read put j)
  unfolding real_field
  real_field-Keeps read put k j l h =
      option_case At (read j) (raised l) (λ x. put x l) h (λ x. k x l h)

  temperatures-Keeps :
      (read : Json → Option Real) (fs : Fields) → Keeps At (run (temperature_changes read fs))
  temperatures-Keeps read fs = run-Keeps At (temperature_changes read fs) (
    on_key-Keeps At _ fs _ (real_field-Keeps read _ (λ x l h. h)),
    (
      on_key-Keeps At _ fs _ (real_field-Keeps read _ (λ x l h. h)),
      (
        on_key-Keeps At _ fs _ (real_field-Keeps read _ (λ x l h. h)),
        (on_key-Keeps At _ fs _ (real_field-Keeps read _ (λ x l h. h)), tt),
      ),
    ),
  )

  int_field-Keeps : (put : ℤ → PrintJob → PrintJob) (j : Json) → Keeps At (int_field put j)
  unfolding int_field
  int_field-Keeps put j l h =
      option_case At (int_of j) (raised l) (λ n. put_job (put n (job_or_new l.status.job)) l) h
        (λ n. h)

  file_name-Keeps : (j : Json) → Keeps At (set_file_name j)
  unfolding set_file_name
  file_name-Keeps null l h = h
  file_name-Keeps (bool b) l h = h
  file_name-Keeps (num n) l h = h
  file_name-Keeps (decimal m k) l h = h
  file_name-Keeps (str s) l h = h
  file_name-Keeps (arr js) l h = h
  file_name-Keeps (obj fs) l h = h

  start_time-Keeps : (text : Json → String) (j : Json) → Keeps At (set_start_time text j)
  unfolding set_start_time
  start_time-Keeps text j l h = h

  job-Keeps : (text : Json → String) (fs : Fields) → Keeps At (apply_job text fs)
  unfolding apply_job with_job
  job-Keeps text fs l h =
      run-Keeps At (job_changes text fs)
        (
          on_key-Keeps At _ fs _ file_name-Keeps,
          (
            on_key-Keeps At _ fs _ (int_field-Keeps _),
            (
              on_key-Keeps At _ fs _ (int_field-Keeps _),
              (
                on_key-Keeps At _ fs _ (int_field-Keeps _),
                (
                  on_key-Keeps At _ fs _ (int_field-Keeps _),
                  (on_key-Keeps At _ fs _ (start_time-Keeps text), tt),
                ),
              ),
            ),
          ),
        )
        (with_job fs l) (if_both At (any_key job_keys fs) h h)

  hms-Keeps : (j : Json) → Keeps At (set_hms j)
  unfolding set_hms
  hms-Keeps j l h = h

  error_code-At : (o : Option ℤ) (l : Live) → At l → At (set_error_code o l)
  unfolding set_error_code
  error_code-At none l h = h
  error_code-At (some n) l h = h

  put_error-Keeps : (fs : Fields) → Keeps At (put_error fs)
  unfolding put_error
  put_error-Keeps fs l h = error_code-At (int_value (error_value fs)) l h

  finish_report-Keeps :
      (t : Descriptions) (g : String) (fs : Fields) → Keeps At (finish_report t g fs)
  unfolding finish_report drop_job describe derive
  finish_report-Keeps t g fs l h = if_both At (derives fs) h h

  stage-Keeps : (j : Json) → Keeps At (set_stage j)
  unfolding set_stage
  stage-Keeps j l h = option_case At (int_of j) (fine l) _ h (λ n. h)

  supported-Keeps : (j : Json) → Keeps At (set_supported j)
  unfolding set_supported
  supported-Keeps null l h = h
  supported-Keeps (bool b) l h = h
  supported-Keeps (num n) l h = h
  supported-Keeps (decimal m k) l h = h
  supported-Keeps (str s) l h = h
  supported-Keeps (arr js) l h = h
  supported-Keeps (obj fs) l h = h

  refill-At : (o : Option Bool) (l : Live) → At l → At (set_refill o l)
  unfolding set_refill
  refill-At none l h = h
  refill-At (some b) l h = h

  refill-Keeps : (h : Holds) (fs : Fields) → Keeps At (refill_part h fs)
  unfolding refill_part
  refill-Keeps h fs l e =
      if_both (Always At) (leb h.refill_until h.now) (refill-At (reported_refill fs) l e) e

  held-Keeps : (h : Holds) (fs : Fields) → h.now < h.speed_until → Keeps At (speed_part h fs)
  unfolding speed_part
  held-Keeps h fs early l e = ground (arith, early, e)

  all-Keeps :
      (py : Builtins) (h : Holds) (g : String) (fs : Fields)
      → h.now < h.speed_until
      → Keeps At (apply_with py h g fs)
  unfolding apply_with
  all-Keeps py h g fs early = run-Keeps At (all_changes py h g fs) (
    run-Keeps At (mode_changes h fs) (
      on_key-Keeps At _ fs _ stage-Keeps,
      (held-Keeps h fs early, (on_key-Keeps At _ fs _ supported-Keeps, (refill-Keeps h fs, tt))),
    ),
    (
      temperatures-Keeps py.float_of fs,
      (
        job-Keeps py.text_of fs,
        (
          on_key-Keeps At _ fs _ hms-Keeps,
          (put_error-Keeps fs, (finish_report-Keeps py.descriptions g fs, tt)),
        ),
      ),
    ),
  )

abbrev pub left_by : PayloadEnd → Live
left_by (applied l g) = l
left_by (failed l) = l
left_by (ill_typed l) = l

-- Before the hold-off of a speed ends, no report changes the speed level, whatever it holds and
-- however its reading ends.
pub apply_print_payload-speed_level :
    (py : Builtins) (h : Holds) (g : String) (fs : Fields) (l : Live)
    → h.now < h.speed_until
    → (left_by (apply_print_payload py h g fs l)).status.speed_level ≡ l.status.speed_level
unfolding apply_print_payload
apply_print_payload-speed_level py h g fs l early =
    by_state (new_gcode_state g (present (member "gcode_state" fs)))
  where
    end_case :
        (g : String) (m : Applied)
        → Always (At l.status.speed_level) m
        → (left_by (ends_with g m)).status.speed_level ≡ l.status.speed_level
    end_case g (fine k) e = e
    end_case g (raised k) e = e
    end_case g (untyped k) e = e

    by_state :
        (o : Option String)
        → (left_by (elim o [
          | none ↦ ill_typed l
          | some g ↦ ends_with g (apply_with py h g fs l)
        ])).status.speed_level
          ≡ l.status.speed_level
    by_state none = refl
    by_state (some g) = end_case g _ (all-Keeps l.status.speed_level py h g fs early l refl)
