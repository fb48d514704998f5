-- ===== src/Mqtt/Apply/Consistent.antt =====
-- What a report that has been read leaves behind.
use mathlib.Core.Path.{subst}
use bambu_gateway.Prelude.{
  ◌≡◌, refl, ◌∙◌, String, Bool, false, ◌&&◌, Option, none, some, List, [], ◌∷◌, ◌++◌, if◌then◌else◌,
  is_in, ◌==◌, string_eq, inl, inr, Bool-cases,
}
use bambu_gateway.Prelude.Int.{pos, int_eq}
use bambu_gateway.Prelude.Json.{Fields, member}
use bambu_gateway.Printer.{
  PrinterState, idle, finished, cancelled, paused, error, state_eq, PrintJob,
}
use bambu_gateway.HmsCodes.{Descriptions, current_error_description}
use bambu_gateway.Mqtt.Report.{
  Live, Applied, fine, raised, untyped, ◌>>=◌, Change, run, describe, drop_job, without_progress,
  present, on_key, set_hms, apply_job,
}
use bambu_gateway.Mqtt.Apply.{
  Builtins, Holds, finish_report, all_changes, apply_with, applied, ill_typed, ends_with,
  new_gcode_state, apply_print_payload, mode_changes, temperature_changes, put_error,
}

abbrev pub stopped : PrinterState → Bool
stopped s = is_in s (paused ∷ error ∷ [])

abbrev pub at_rest : PrinterState → Bool
at_rest s = is_in s (idle ∷ finished ∷ cancelled ∷ [])

abbrev pub at_zero : Option PrintJob → Bool
at_zero none = false
at_zero (some job) = job.progress == pos 0

-- An error text only while the printer has stopped, the one that its codes stand for; and no job
-- at zero percent on a printer at rest.
pub record IsConsistent (t : Descriptions) (l : Live) : Type 0 where
  pub told : l.status.error_message ≡ (
      if stopped l.status.state
      then current_error_description t l.status.hms_codes l.status.print_error
      else none)
  pub progressed : (at_rest l.status.state && at_zero l.status.job) ≡ false

without_progress-at_zero : (job : Option PrintJob) → at_zero (without_progress job) ≡ false
without_progress-at_zero none = refl
without_progress-at_zero (some job) = elim (Bool-cases (job.progress == pos 0)) [
  | inl e ↦ rw e
  | inr e ↦ rw (e, e)
]

dropped :
    (s : PrinterState) (job : Option PrintJob)
    → (at_rest s && at_zero (if at_rest s then without_progress job else job)) ≡ false
dropped s job = elim (Bool-cases (at_rest s)) [
  | inl e ↦ rw e (without_progress-at_zero job)
  | inr e ↦ rw e
]

settled : (t : Descriptions) (l : Live) → IsConsistent t (drop_job (describe t l))
unfolding drop_job describe
settled t l = record { told = refl; progressed = dropped l.status.state l.status.job }

then_fine :
    (m : Applied) (f : Change) (l' : Live)
    → (m >>= f) ≡ fine l'
    → (k : Live) × (m ≡ fine k) × (f k ≡ fine l')
then_fine (fine k) f l' h = (k, refl, h)
then_fine (raised k) f l' h = cc
then_fine (untyped k) f l' h = cc

run_last :
    (fs : List Change) (f : Change) (l l' : Live)
    → run (fs ++ f ∷ []) l ≡ fine l'
    → (k : Live) × (f k ≡ fine l')
unfolding run
run_last [] f l l' h = let (k, e, done) = then_fine (f l) fine l' h in (l, e ∙ done)
run_last (g ∷ fs) f l l' h =
    let (k, e, more) = then_fine (g l) (run (fs ++ f ∷ [])) l' h in run_last fs f k l' more

fine_inj : (l l' : Live) → fine l ≡ fine l' → l ≡ l'
fine_inj l l' h = cc

finish_report-IsConsistent :
    (t : Descriptions) (g : String) (fs : Fields) (k l' : Live)
    → finish_report t g fs k ≡ fine l'
    → IsConsistent t l'
unfolding finish_report
finish_report-IsConsistent t g fs k l' e =
    subst (λ (x : Live). IsConsistent t x) (fine_inj _ l' e) (settled t _)

-- A report that is read to its end leaves a status whose error text is there only while the
-- printer is paused or at an error, and then describes its codes, and whose printer, if it is idle,
-- finished or cancelled, has no job at zero percent.
pub apply_print_payload-IsConsistent :
    (py : Builtins) (h : Holds) (g g' : String) (fs : Fields) (l l' : Live)
    → apply_print_payload py h g fs l ≡ applied l' g'
    → IsConsistent py.descriptions l'
unfolding apply_print_payload apply_with
apply_print_payload-IsConsistent py h g g' fs l l' e =
    by_state (new_gcode_state g (present (member "gcode_state" fs))) e
  where
    finished_at :
        (g : String) → run (all_changes py h g fs) l ≡ fine l' → IsConsistent py.descriptions l'
    finished_at g e =
        let (k, last) =
          run_last
            (run (mode_changes h fs)
              ∷ run (temperature_changes py.float_of fs)
              ∷ apply_job py.text_of fs
              ∷ on_key "hms" fs set_hms
              ∷ put_error fs
              ∷ [])
            (finish_report py.descriptions g fs) l l' e in
        finish_report-IsConsistent py.descriptions g fs k l' last

    end_case : (g : String) (m : Applied) → ends_with g m ≡ applied l' g' → m ≡ fine l'
    end_case g (fine k) e = cc
    end_case g (raised k) e = cc
    end_case g (untyped k) e = cc

    by_state :
        (o : Option String)
        → elim o [ none ↦ ill_typed l | some g ↦ ends_with g (apply_with py h g fs l) ]
          ≡ applied l' g'
        → IsConsistent py.descriptions l'
    by_state none e = cc
    by_state (some g) e = finished_at g (end_case g _ e)
