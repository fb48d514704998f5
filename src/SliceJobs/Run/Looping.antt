-- ===== src/SliceJobs/Run/Looping.antt =====
-- The slicer's events keep a run in `slicing`, and the polls of an upload in `uploading`.
use bambu_gateway.Prelude.{
  ℕ, refl, ◌≤◌, String, Option, none, some, List, [], ◌∷◌, arith, if_both, leb, ◌+◌, nat_beq,
}
use bambu_gateway.Prelude.Int.{ℤ, pos, negsuc}
use bambu_gateway.SliceJobs.{slicing, uploading, slicing_failed}
use bambu_gateway.SliceJobs.Run.Effects.{World, Written, wrote, unwritten, store}
use bambu_gateway.SliceJobs.Run.Loop.{
  Percent, absent, unreadable, infinite, percent, no_blob, bad_blob, blob, SlicerEvent, progress,
  status, result, error, done, other, Round, cancel_seen, event, stream_raised, LoopState, LoopEnd,
  loop_cancelled, loop_failed, loop_stopped, clamp, set_progress, set_phase, throttled_store,
  on_progress, after_write, Next, go_on, stop, raise, on_event, loop, seen, clock,
  write_interval_ms,
}
use bambu_gateway.SliceJobs.Run.Print.{poll, polling, polled, due, upload_percent}
use bambu_gateway.SliceJobs.Run.Steps.{On, slice_on, upload_on, edit-On, at-On}
use bambu_gateway.SliceJobs.Run.Writes.{Stays, store-Stays}

clamp_bounded : (n : ℤ) → clamp n ≤ 100
unfolding clamp
clamp_bounded (pos n) = omega arith
clamp_bounded (negsuc n) = omega arith

abbrev Kept : Option World → Type 0
Kept none = Unit
Kept (some w) = On slicing w

set_progress-On : (n : Option ℤ) (w : World) → On slicing w → On slicing (set_progress n w)
set_progress-On none w h = h
set_progress-On (some n) w h = edit-On w h _ refl (clamp_bounded n) refl

set_phase-On : (m : Option String) (w : World) → On slicing w → On slicing (set_phase m w)
set_phase-On none w h = h
set_phase-On (some m) w h = edit-On w h _ refl h.bounded refl

on_progress-Kept :
    (p : Percent) (n : Option ℤ) (m : Option String) (w : World)
    → On slicing w
    → Kept (on_progress p n m w)
unfolding on_progress
on_progress-Kept absent n m w h = set_phase-On m (set_progress n w) (set_progress-On n w h)
on_progress-Kept unreadable n m w h = h
on_progress-Kept infinite n m w h = tt
on_progress-Kept (percent p) n m w h = set_progress-On (some p) w h

abbrev pub Next-On : Next → Type 0
Next-On (go_on l) = On slicing l.world
Next-On (stop l) = On slicing l.world
Next-On (raise message l) = On slicing l.world

throttled_store-On : (l : LoopState) → On slicing l.world → Next-On (throttled_store l)
unfolding throttled_store
throttled_store-On l h =
    if_both Next-On (leb (l.last_write + write_interval_ms) l.world.now)
      (go (store l.world) (store-Stays l.world h slice_on)) h
  where
    go : (r : Written) → Stays slicing r → Next-On (after_write l r)
    go (wrote w) k = k
    go (unwritten e w) k = k

on_event-On : (e : SlicerEvent) (l : LoopState) → On slicing l.world → Next-On (on_event e l)
unfolding on_event
on_event-On (progress p n m) l h = go (on_progress p n m l.world) (on_progress-Kept p n m l.world h)
  where
    go :
        (o : Option World)
        → Kept o
        → Next-On (elim o [
          | none ↦ raise "cannot convert float infinity to integer" l
          | some w ↦ throttled_store (record l { world = w })
        ])
    go none k = h
    go (some w) k = throttled_store-On (record l { world = w }) k
on_event-On (status none) l h = h
on_event-On (status (some p)) l h = throttled_store-On _ (set_phase-On (some p) l.world h)
on_event-On (result no_blob estimate transfer) l h = h
on_event-On (result (bad_blob e) estimate transfer) l h = h
on_event-On (result (blob bytes) estimate transfer) l h = h
on_event-On (error message) l h = h
on_event-On done l h = h
on_event-On (other name) l h = h

abbrev pub LoopEnd-On : LoopEnd → Type 0
LoopEnd-On (loop_cancelled w) = On slicing w
LoopEnd-On (loop_failed message w) = On slicing w
LoopEnd-On (loop_stopped l) = On slicing l.world

pub loop-On :
    (rounds : List (ℕ × Round)) (l : LoopState) → On slicing l.world → LoopEnd-On (loop rounds l)
unfolding loop
loop-On [] l h = h
loop-On ((t, cancel_seen) ∷ rounds) l h = at-On l.world h t
loop-On ((t, stream_raised e) ∷ rounds) l h = at-On l.world h t
loop-On ((t, event e) ∷ rounds) l h =
    go (loop-On rounds) (on_event e (seen e (clock t l)))
      (on_event-On e (seen e (clock t l)) (at-On l.world h t))
  where
    go :
        ((l' : LoopState) → On slicing l'.world → LoopEnd-On (loop rounds l'))
        → (n : Next) → Next-On n
        → LoopEnd-On (elim n [
          | go_on l' ↦ loop rounds l'
          | stop l' ↦ loop_stopped l'
          | raise message l' ↦ loop_failed (slicing_failed message) l'.world
        ])
    go rest (go_on l') k = rest l' k
    go rest (stop l') k = k
    go rest (raise message l') k = k

upload_percent_bounded : (total sent old : ℕ) → old ≤ 100 → upload_percent total sent old ≤ 100
upload_percent_bounded total sent old h = if_both (λ x. x ≤ 100) (nat_beq total 0) h (omega arith)

polled-On : (total t sent : ℕ) (w : World) → On uploading w → On uploading (polled total t sent w)
polled-On total t sent w h =
    at-On _ (edit-On w h _ refl (upload_percent_bounded total sent w.job.progress h.bounded) refl) t

poll-Stays :
    (total t sent last_write : ℕ) (w : World)
    → On uploading w
    → Stays uploading (poll total t sent last_write w).0
unfolding poll
poll-Stays total t sent last_write w h =
    if_both (λ (r : Written × ℕ). Stays uploading r.0) (due last_write (polled total t sent w))
      (store-Stays _ (polled-On total t sent w h) upload_on) (polled-On total t sent w h)

pub polling-Stays :
    (total : ℕ) (polls : List (ℕ × ℕ)) (last_write : ℕ) (w : World)
    → On uploading w
    → Stays uploading (polling total polls last_write w)
unfolding polling
polling-Stays total [] last_write w h = h
polling-Stays total ((t, sent) ∷ polls) last_write w h =
    go (poll total t sent last_write w).0 (poll-Stays total t sent last_write w h)
      (polling-Stays total polls (poll total t sent last_write w).1)
  where
    go :
        (r : Written)
        → Stays uploading r
        → ((w' : World)
            → On uploading w'
            → Stays uploading (polling total polls (poll total t sent last_write w).1 w'))
        → Stays uploading (elim r [
          | wrote w' ↦ polling total polls (poll total t sent last_write w).1 w'
          | unwritten e w' ↦ unwritten e w'
        ])
    go (wrote w') k rest = rest w' k
    go (unwritten e w') k rest = k
