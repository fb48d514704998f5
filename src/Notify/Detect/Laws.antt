-- ===== src/Notify/Detect/Laws.antt =====
-- What `detect_events` reports.
use bambu_gateway.Prelude.{
  ◌≡◌, refl, String, Bool, true, false, Option, none, some, List, [], ◌∷◌, ◌++◌, append-nil, arith,
  ◌==◌, string_eq, is_in, All, if◌then◌else◌,
}
use bambu_gateway.Printer.{state_eq, PrinterStatus, HmsCode}
use bambu_gateway.Notify.Detect.{
  EventType, NotificationEvent, printer_offline_active, hms_warning, progress_tick, attrs,
  hms_events, is_progress_tick, transition_events, offline_events, tick_events, or_else,
  detect_events, state_transition_event,
}

abbrev Known : List String → List String → Type 0
Known known xs = All (λ a. is_in a known ≡ true) xs

Known-cons : (k : String) (known xs : List String) → Known known xs → Known (k ∷ known) xs
Known-cons k known [] h = tt
Known-cons k known (x ∷ xs) h = (ground arith, Known-cons k known xs h.1)

Known-self : (xs : List String) → Known xs xs
Known-self [] = tt
Known-self (x ∷ xs) =
    let same : (x == x) ≡ true = (string_eq.eqb_iff x x).1 refl in
    (rw same, Known-cons x xs xs (Known-self xs))

hms_events-Known :
    (known : List String) (s : PrinterStatus) (cs : List HmsCode)
    → Known known (attrs cs)
    → hms_events known s cs ≡ []
unfolding hms_events
hms_events-Known known s [] h = refl
hms_events-Known known s (c ∷ cs) h = ground (arith, hms_events-Known known s cs h.1)

transition_events_same : (s : PrinterStatus) → transition_events s s ≡ []
unfolding transition_events
transition_events_same s = rw ((state_eq.eqb_iff s.state s.state).1 refl)

offline_events_same : (s : PrinterStatus) → offline_events s s ≡ []
unfolding offline_events
offline_events_same s = ground arith

is_progress_tick_same : (s : PrinterStatus) → is_progress_tick s s ≡ false
unfolding is_progress_tick
is_progress_tick_same s = ground arith

tick_events_same : (s : PrinterStatus) → tick_events s s ≡ []
unfolding tick_events
tick_events_same s = ground (arith, is_progress_tick_same s)

-- A printer that reports the same snapshot again causes no event.
pub detect_events_same : (s : PrinterStatus) → detect_events s s ≡ []
unfolding detect_events
detect_events_same s = rw (
  transition_events_same s,
  offline_events_same s,
  hms_events-Known (attrs s.hms_codes) s s.hms_codes (Known-self (attrs s.hms_codes)),
  tick_events_same s,
)

abbrev pub is_transition : EventType → Bool
is_transition printer_offline_active = false
is_transition hms_warning = false
is_transition progress_tick = false
is_transition _ = true

abbrev pub is_warning : EventType → Bool
is_warning hms_warning = true
is_warning _ = false

-- The events of the types that pass a test.
pub select : (EventType → Bool) → List NotificationEvent → List NotificationEvent
select p [] = []
select p (e ∷ es) = let rest = select p es in if p e.event_type then e ∷ rest else rest

select-append :
    (p : EventType → Bool) (xs ys : List NotificationEvent)
    → select p (xs ++ ys) ≡ select p xs ++ select p ys
unfolding select
select-append p [] ys = refl
select-append p (x ∷ xs) ys = ground (arith, select-append p xs ys)

select-or_else :
    (p : EventType → Bool) (xs ys : List NotificationEvent)
    → select p ys ≡ []
    → select p (or_else xs ys) ≡ select p xs
unfolding select
select-or_else p [] ys h = h
select-or_else p (x ∷ xs) ys h = refl

abbrev pub types : List NotificationEvent → List EventType
types [] = []
types (e ∷ es) = e.event_type ∷ types es

abbrev pub codes : List NotificationEvent → List String
codes [] = []
codes (e ∷ es) = e.hms_code ∷ codes es

abbrev pub reported : Option EventType → List EventType
reported none = []
reported (some t) = t ∷ []

-- The codes of a report that an earlier one does not have.
pub newly : List String → List String → List String
newly known [] = []
newly known (x ∷ xs) = let rest = newly known xs in if is_in x known then rest else x ∷ rest

module _ (prev new : PrinterStatus) where
  select_ticks :
      (p : EventType → Bool) → p progress_tick ≡ false → select p (tick_events prev new) ≡ []
  unfolding select tick_events
  select_ticks p h = ground arith

  select_offline :
      (p : EventType → Bool)
      → p printer_offline_active ≡ false
      → select p (offline_events prev new) ≡ []
  unfolding select offline_events
  select_offline p h = ground arith

  select_hms :
      (p : EventType → Bool) (known : List String) (cs : List HmsCode)
      → p hms_warning ≡ false
      → select p (hms_events known new cs) ≡ []
  unfolding select hms_events
  select_hms p known [] h = refl
  select_hms p known (c ∷ cs) h = ground (arith, select_hms p known cs)

  select_transition : types (select is_transition (transition_events prev new)) ≡ (
      if prev.state == new.state
      then []
      else reported (state_transition_event prev.state new.state))
  unfolding select transition_events state_transition_event
  select_transition = ground arith

  select_warnings :
      (known : List String) (cs : List HmsCode)
      → codes (select is_warning (hms_events known new cs)) ≡ newly known (attrs cs)
  unfolding select hms_events newly
  select_warnings known [] = refl
  select_warnings known (c ∷ cs) = ground (arith, select_warnings known cs)

  warnings_of_transition : select is_warning (transition_events prev new) ≡ []
  unfolding select transition_events state_transition_event
  warnings_of_transition = ground arith

  -- A diff has at most one transition event, the one of the state change, and one warning for each
  -- code that the earlier snapshot does not have, in the order of the report.
  pub detect_events_parts :
      (types (select is_transition (detect_events prev new)) ≡ (
        if prev.state == new.state
        then []
        else reported (state_transition_event prev.state new.state)))
      × (codes (select is_warning (detect_events prev new))
          ≡ newly (attrs prev.hms_codes) (attrs new.hms_codes))
  unfolding detect_events
  detect_events_parts = (
    rw
        (
          select-or_else is_transition _ _ (select_ticks is_transition refl),
          select-append is_transition (transition_events prev new),
          select-append is_transition (offline_events prev new),
          select_offline is_transition refl,
          select_hms is_transition (attrs prev.hms_codes) new.hms_codes refl,
          append-nil,
        )
        select_transition,
    rw
        (
          select-or_else is_warning _ _ (select_ticks is_warning refl),
          select-append is_warning (transition_events prev new),
          select-append is_warning (offline_events prev new),
          select_offline is_warning refl,
          warnings_of_transition,
        )
        (select_warnings (attrs prev.hms_codes) new.hms_codes),
  )
