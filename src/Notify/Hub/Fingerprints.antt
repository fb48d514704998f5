-- ===== src/Notify/Hub/Fingerprints.antt =====
-- The fingerprint filter: a transition is let through once for a print.
use bambu_gateway.Prelude.{
  ℕ, ◌≡◌, ◌≢◌, refl, ap, ◌⊎◌, inl, inr, String, true, false, ◌&&◌, Option, none, some, List, [],
  ◌∷◌, arith, if◌then◌else◌, ◌==◌, string_eq, is_in, All, Bool-cases,
}
use bambu_gateway.Prelude.Dict
use bambu_gateway.Prelude.Dict.{Dict, lookup-insert}
use bambu_gateway.Notify.Detect.{EventType, event_eq, NotificationEvent}
use bambu_gateway.Notify.Hub.{
  Fingerprint, absent, fingerprint_eq, job_fingerprint, transition_event_types, Hub, or_empty,
  fired, matches, is_fingerprint_duplicate, is_deduped, is_throttled, handle, dropped,
}

-- What the hub last let through for a printer and a type of event.
pub fired_as : String → EventType → Hub → Option Fingerprint
fired_as p t h = Dict.lookup t (or_empty (Dict.lookup p h.last_fired_fingerprint))

matches_eq : (f : Fingerprint) (o : Option Fingerprint) → matches f o ≡ true → o ≡ some f
matches_eq f none h = cc
matches_eq f (some g) h = ap some ((fingerprint_eq.eqb_iff g f).0 h)

matches-some : (f : Fingerprint) → matches f (some f) ≡ true
matches-some f = (fingerprint_eq.eqb_iff f f).1 refl

not-absent : (f : Fingerprint) → f ≢ absent → (f == absent) ≡ false
not-absent f h = elim (Bool-cases (f == absent)) [
  | inl e ↦ absurd (h ((fingerprint_eq.eqb_iff f absent).0 e))
  | inr e ↦ e
]

module _ (now now' : ℕ) (e : NotificationEvent) (h : Hub) where
  others_keep_fired :
      (handle now now' e h).1.last_fired_fingerprint
      ≡ (is_fingerprint_duplicate e h).1.last_fired_fingerprint
  unfolding handle is_deduped is_throttled
  others_keep_fired = ground arith

  -- The hub's memory after the filter has seen a transition.
  fired_after :
      (p : String) (t : EventType)
      → is_in e.event_type transition_event_types ≡ true
      → job_fingerprint e.snapshot ≢ absent
      → fired_as p t (is_fingerprint_duplicate e h).1 ≡ (
          if e.printer_id == p && e.event_type == t
          then some (job_fingerprint e.snapshot)
          else fired_as p t h)
  unfolding fired_as is_fingerprint_duplicate
  fired_after p t tr fp =
      let f = job_fingerprint e.snapshot in
      let m = fired e h in
      let last = h.last_fired_fingerprint in
      rw (tr, not-absent f fp)
        (ground (
          arith,
          matches_eq f (Dict.lookup e.event_type m),
          lookup-insert e.printer_id p m last,
          lookup-insert e.printer_id p (Dict.insert e.event_type f m) last,
          lookup-insert e.event_type t f m,
          string_eq.eqb_iff e.printer_id p,
          event_eq.eqb_iff e.event_type t,
        ))

  -- Events that are no transition, or have no print, are not remembered.
  unremembered :
      (is_in e.event_type transition_event_types ≡ false) ⊎ (job_fingerprint e.snapshot ≡ absent)
      → is_fingerprint_duplicate e h ≡ (false, h)
  unfolding is_fingerprint_duplicate
  unremembered (inl tr) = rw tr
  unremembered (inr fp) = rw fp (ground arith)

  fired-handle :
      (p : String) (t : EventType)
      → fired_as p t (handle now now' e h).1 ≡ fired_as p t (is_fingerprint_duplicate e h).1
  unfolding fired_as
  fired-handle p t = rw others_keep_fired

  handle_keeps :
      (p : String) (t : EventType) (f : Fingerprint)
      → fired_as p t h ≡ some f
      → (e.printer_id ≡ p → e.event_type ≡ t → job_fingerprint e.snapshot ≡ f)
      → fired_as p t (handle now now' e h).1 ≡ some f
  handle_keeps p t f mem same =
      rw fired-handle (elim (Bool-cases (is_in e.event_type transition_event_types)) [
        | inr tr ↦ rw (unremembered (inl tr)) mem
        | inl tr ↦ elim (Bool-cases (job_fingerprint e.snapshot == absent)) [
          | inl a ↦ rw (unremembered (inr ((fingerprint_eq.eqb_iff _ absent).0 a))) mem
          | inr a ↦
              rw
                (fired_after p t tr
                  (λ q. cc ((fingerprint_eq.eqb_iff (job_fingerprint e.snapshot) absent).1 q)))
                (ground (arith, string_eq.eqb_iff e.printer_id p, event_eq.eqb_iff e.event_type t))
        ]
      ])

  handle_remembers :
      is_in e.event_type transition_event_types ≡ true
      → job_fingerprint e.snapshot ≢ absent
      → fired_as e.printer_id e.event_type (handle now now' e h).1
        ≡ some (job_fingerprint e.snapshot)
  handle_remembers tr fp = rw (
    fired-handle,
    fired_after e.printer_id e.event_type tr fp,
    (string_eq.eqb_iff e.printer_id e.printer_id).1 refl,
    (event_eq.eqb_iff e.event_type e.event_type).1 refl,
  )

  handle_drops :
      is_in e.event_type transition_event_types ≡ true
      → job_fingerprint e.snapshot ≢ absent
      → fired_as e.printer_id e.event_type h ≡ some (job_fingerprint e.snapshot)
      → (handle now now' e h).0 ≡ dropped
  unfolding handle is_fingerprint_duplicate fired_as
  handle_drops tr fp mem = rw (
    tr,
    not-absent (job_fingerprint e.snapshot) fp,
    mem,
    matches-some (job_fingerprint e.snapshot),
  )

-- The events of the queue, with the two readings of the clock at each.
unfoldable pub run : List (ℕ × ℕ × NotificationEvent) → Hub → Hub
run [] h = h
run ((now, now', e) ∷ es) h = run es (handle now now' e h).1

module _ (p : String) (t : EventType) (f : Fingerprint) where
  -- An event that is not the same transition of another print.
  abbrev pub Spares : ℕ × ℕ × NotificationEvent → Type 0
  Spares (now, now', e) = e.printer_id ≡ p → e.event_type ≡ t → job_fingerprint e.snapshot ≡ f

  run_keeps :
      (es : List (ℕ × ℕ × NotificationEvent)) (h : Hub)
      → All Spares es
      → fired_as p t h ≡ some f
      → fired_as p t (run es h) ≡ some f
  unfolding run
  run_keeps [] h s mem = mem
  run_keeps ((now, now', e) ∷ es) h s mem =
      run_keeps es (handle now now' e h).1 s.1 (handle_keeps now now' e h p t f mem s.0)

-- Once a transition of a print has been handled, the same transition of the same print is dropped,
-- however much later it comes and whatever comes between, until the printer has made the same
-- transition in another print.
pub repeat_dropped :
    (e e' : NotificationEvent) (h : Hub) (es : List (ℕ × ℕ × NotificationEvent)) (m m' n n' : ℕ)
    → is_in e.event_type transition_event_types ≡ true
    → job_fingerprint e.snapshot ≢ absent
    → e'.printer_id ≡ e.printer_id
    → e'.event_type ≡ e.event_type
    → job_fingerprint e'.snapshot ≡ job_fingerprint e.snapshot
    → All (Spares e.printer_id e.event_type (job_fingerprint e.snapshot)) es
    → (handle n n' e' (run es (handle m m' e h).1)).0 ≡ dropped
repeat_dropped e e' h es m m' n n' tr fp p t f s =
    let before = run es (handle m m' e h).1 in
    let mem : fired_as e.printer_id e.event_type before ≡ some (job_fingerprint e.snapshot) =
      run_keeps _ _ _ es (handle m m' e h).1 s (handle_remembers m m' e h tr fp) in
    handle_drops n n' e' before (rw t tr) (rw f fp) (rw (p, t, f) mem)
