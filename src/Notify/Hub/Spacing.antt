-- ===== src/Notify/Hub/Spacing.antt =====
-- The two time filters: alerts for one key, and progress updates of one printer.
use bambu_gateway.Prelude.{
  ℕ, ◌+◌, ◌≤◌, ◌≡◌, ◌≢◌, refl, ap, inl, inr, String, Bool, true, false, ◌&&◌, some, List, [], ◌∷◌,
  arith, if◌then◌else◌, ◌==◌, string_eq, pair_eq, Eq, All, Bool-cases, ltb,
}
use bambu_gateway.Prelude.Dict
use bambu_gateway.Prelude.Dict.{Dict, lookup-insert}
use bambu_gateway.Prelude.Dict.Unique.{IsUnique, retain-IsUnique, insert-IsUnique, lookup-retain}
use bambu_gateway.Notify.Detect.{event_eq, NotificationEvent, progress_tick}
use bambu_gateway.Notify.Hub.{
  Hub, suffix_eq, Key, event_key, unexpired, is_fingerprint_duplicate, is_deduped, is_throttled,
  or_zero, has, handle, Action, update, dispatch,
}
use bambu_gateway.Notify.Hub.Fingerprints.{run}

abbrev pub is_update : Action → Bool
is_update update = true
is_update _ = false

-- The times of the Live Activity updates for a printer, as the events of the queue are handled.
pub update_times : String → List (ℕ × ℕ × NotificationEvent) → Hub → List ℕ
update_times p [] h = []
update_times p ((now, now', e) ∷ es) h =
    let (action, h') = handle now now' e h in
    let rest = update_times p es h' in
    if e.printer_id == p && is_update action then now' ∷ rest else rest

-- Each time is at least ten seconds after the one before.
abbrev pub Spaced : ℕ → List ℕ → Type 0
Spaced t [] = Unit
Spaced t (x ∷ xs) = (t + 10000 ≤ x) × Spaced x xs

abbrev last : String → Hub → ℕ
last p h = or_zero (Dict.lookup p h.last_progress)

module _ (now now' : ℕ) (e : NotificationEvent) (h : Hub) where
  last-handle :
      (p : String)
      → last p (handle now now' e h).1
        ≡ (if e.printer_id == p && is_update (handle now now' e h).0 then now' else last p h)
  unfolding handle is_fingerprint_duplicate is_deduped is_throttled
  last-handle p = ground (arith, lookup-insert e.printer_id p now' h.last_progress)

  update_late :
      (p : String)
      → (e.printer_id == p && is_update (handle now now' e h).0) ≡ true
      → last p h + 10000 ≤ now'
  unfolding handle is_fingerprint_duplicate is_deduped is_throttled
  update_late p u = ground (arith, string_eq.eqb_iff e.printer_id p)

-- Whatever is queued, the Live Activity updates of a printer are at least ten seconds apart, and the
-- first is as long after the last one before (or after the clock's zero, where there is none).
pub update_times-Spaced :
    (p : String) (es : List (ℕ × ℕ × NotificationEvent)) (h : Hub)
    → Spaced (or_zero (Dict.lookup p h.last_progress)) (update_times p es h)
unfolding update_times
update_times-Spaced p [] h = tt
update_times-Spaced p ((now, now', e) ∷ es) h = ground (
  arith,
  last-handle now now' e h p,
  update_late now now' e h p,
  update_times-Spaced p es (handle now now' e h).1,
)

-- The window of one key.
abbrev Held : Key → ℕ → Hub → Type 0
Held k ts h = IsUnique h.dedupe × (Dict.lookup k h.dedupe ≡ some ts)

dedupe_of_fingerprint :
    (e : NotificationEvent) (h : Hub) → (is_fingerprint_duplicate e h).1.dedupe ≡ h.dedupe
unfolding is_fingerprint_duplicate
dedupe_of_fingerprint e h = ground arith

dedupe_of_throttle :
    (now : ℕ) (e : NotificationEvent) (h : Hub) → (is_throttled now e h).1.dedupe ≡ h.dedupe
unfolding is_throttled
dedupe_of_throttle now e h = ground arith

lookup-insert_fresh {ℓ κ} :
    {K : Type ℓ} {V : Type κ} ⦃e : Eq K⦄ (j k : K) (w v : V) (m : Dict K V)
    → Dict.lookup k m ≡ some v
    → has (Dict.lookup j m) ≡ false
    → Dict.lookup k (Dict.insert j w m) ≡ some v
lookup-insert_fresh ⦃e⦄ j k w v m there new = ground (arith, lookup-insert j k w m, e.eqb_iff j k)

-- An entry that has not run out is kept by the filter.
is_deduped_keeps :
    (now : ℕ) (e : NotificationEvent) (h : Hub) (k : Key) (ts : ℕ)
    → now ≤ ts + 30000
    → Held k ts h
    → Held k ts (is_deduped now e h).1
unfolding is_deduped
is_deduped_keeps now e h k ts fits held =
    let kept = unexpired now h.dedupe in
    let unique : IsUnique kept = retain-IsUnique _ h.dedupe held.0 in
    let there : Dict.lookup k kept ≡ some ts = ground (
      arith,
      held.1,
      lookup-retain (λ t. if ltb (t + 30000) now then false else true) k h.dedupe held.0,
    ) in
    elim (Bool-cases (e.event_type == progress_tick)) [
      | inl tick ↦ rw tick (unique, there)
      | inr other ↦ elim (Bool-cases (has (Dict.lookup (event_key e) kept))) [
        | inl old ↦ rw (other, old) (unique, there)
        | inr new ↦
            rw (other, new)
              (
                insert-IsUnique (event_key e) now kept unique,
                lookup-insert_fresh (event_key e) k now ts kept there new,
              )
      ]
    ]

handle_keeps :
    (now now' : ℕ) (e : NotificationEvent) (h : Hub) (k : Key) (ts : ℕ)
    → now ≤ ts + 30000
    → Held k ts h
    → Held k ts (handle now now' e h).1
unfolding handle
handle_keeps now now' e h k ts fits held =
    let h1 = (is_fingerprint_duplicate e h).1 in
    let held1 : Held k ts h1 = rw dedupe_of_fingerprint held in
    let held2 = is_deduped_keeps now e h1 k ts fits held1 in
    ground (arith, held1, held2, dedupe_of_throttle now' e (is_deduped now e h1).1)

module _ (now now' : ℕ) (e : NotificationEvent) (h : Hub)
    (d : (handle now now' e h).0 ≡ dispatch) where
  -- A dispatched event was not in the window.
  dispatch_fresh :
      ((e.event_type == progress_tick) ≡ false)
      × (has (Dict.lookup (event_key e) (unexpired now h.dedupe)) ≡ false)
  unfolding handle is_deduped is_throttled is_fingerprint_duplicate
  dispatch_fresh = ground arith

  dispatch_dedupe :
      (handle now now' e h).1.dedupe ≡ Dict.insert (event_key e) now (unexpired now h.dedupe)
  unfolding handle is_deduped is_throttled is_fingerprint_duplicate
  dispatch_dedupe = ground arith

  -- It leaves its key with the time of the dispatch.
  dispatch_holds : IsUnique h.dedupe → Held (event_key e) now (handle now now' e h).1
  dispatch_holds unique =
      let kept = unexpired now h.dedupe in
      rw dispatch_dedupe (
        insert-IsUnique (event_key e) now kept (retain-IsUnique _ h.dedupe unique),
        rw (
          lookup-insert (event_key e) (event_key e) now kept,
          (pair_eq.eqb_iff (event_key e) (event_key e)).1 refl,
        ),
      )

still_there :
    (now ts : ℕ) (k : Key) (h : Hub)
    → now ≤ ts + 30000
    → Held k ts h
    → has (Dict.lookup k (unexpired now h.dedupe)) ≡ true
still_there now ts k h fits held = ground (
  arith,
  held.1,
  lookup-retain (λ t. if ltb (t + 30000) now then false else true) k h.dedupe held.0,
)

run_keeps :
    (es : List (ℕ × ℕ × NotificationEvent)) (h : Hub) (k : Key) (ts : ℕ)
    → All (λ (x : ℕ × ℕ × NotificationEvent). x.0 ≤ ts + 30000) es
    → Held k ts h
    → Held k ts (run es h)
unfolding run
run_keeps [] h k ts fits held = held
run_keeps ((now, now', e) ∷ es) h k ts fits held =
    run_keeps es (handle now now' e h).1 k ts fits.1 (handle_keeps now now' e h k ts fits.0 held)

-- After an event is dispatched, no event with its key (printer, type, and code or print) is
-- dispatched in the thirty seconds that follow, whatever is handled in between.
pub dispatch_once :
    (now now' n n' : ℕ) (e e' : NotificationEvent) (h : Hub) (es : List (ℕ × ℕ × NotificationEvent))
    → IsUnique h.dedupe
    → (handle now now' e h).0 ≡ dispatch
    → All (λ (x : ℕ × ℕ × NotificationEvent). x.0 ≤ now + 30000) es
    → n ≤ now + 30000
    → event_key e' ≡ event_key e
    → (handle n n' e' (run es (handle now now' e h).1)).0 ≢ dispatch
dispatch_once now now' n n' e e' h es unique d fits late same again =
    let before = run es (handle now now' e h).1 in
    let held : Held (event_key e) now before =
      run_keeps es _ (event_key e) now fits (dispatch_holds now now' e h d unique) in
    let fresh = (dispatch_fresh n n' e' before again).1 in
    let there = still_there n now (event_key e) before late held in
    cc (ap (λ k. has (Dict.lookup k (unexpired n before.dedupe))) same)
