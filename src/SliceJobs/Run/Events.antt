-- ===== src/SliceJobs/Run/Events.antt =====
-- The loop over events that neither raise nor end it, and a last "done".
use mathlib.Core.Path.{subst}
use bambu_gateway.Prelude.{
  sym, ℕ, ◌≡◌, refl, ap, ◌∙◌, String, Option, none, some, List, [], ◌∷◌, ◌++◌, append_assoc,
  if_both, leb, ◌+◌,
}
use bambu_gateway.Prelude.Int.{ℤ}
use bambu_gateway.SliceJobs.{touch}
use bambu_gateway.SliceJobs.Run.Effects.{World, put_record, store}
use bambu_gateway.SliceJobs.Run.Loop.{
  absent, unreadable, infinite, percent, no_blob, bad_blob, blob, SlicerEvent, progress, status,
  result, error, done, other, Round, event, Sliced, LoopState, LoopEnd, loop_stopped,
  write_interval_ms, set_progress, set_phase, on_progress, throttled_store, after_write, event_name,
  Next, go_on, on_event, seen, clock, loop,
}

-- An event that neither ends the loop nor raises.
abbrev pub IsPlain : SlicerEvent → Type 0
IsPlain (progress absent n m) = Unit
IsPlain (progress unreadable n m) = Unit
IsPlain (progress infinite n m) = ⊥
IsPlain (progress (percent p) n m) = Unit
IsPlain (status p) = Unit
IsPlain (result no_blob e s) = ⊥
IsPlain (result (bad_blob x) e s) = ⊥
IsPlain (result (blob b) e s) = Unit
IsPlain (error x) = ⊥
IsPlain done = ⊥
IsPlain (other name) = Unit

-- The result after an event, and after all of them.
abbrev pub sliced_by : SlicerEvent → Option Sliced → Option Sliced
sliced_by (progress p n m) o = o
sliced_by (status p) o = o
sliced_by (result no_blob e s) o = o
sliced_by (result (bad_blob x) e s) o = o
sliced_by (result (blob b) e s) o = some (record { bytes = b; estimate = e; settings_transfer = s })
sliced_by (error x) o = o
sliced_by done o = o
sliced_by (other name) o = o

abbrev pub last_result : Option Sliced → List (ℕ × SlicerEvent) → Option Sliced
last_result o [] = o
last_result o ((t, e) ∷ es) = last_result (sliced_by e o) es

abbrev pub AllPlain : List (ℕ × SlicerEvent) → Type 0
AllPlain [] = Unit
AllPlain ((t, e) ∷ es) = IsPlain e × AllPlain es

abbrev pub names : List (ℕ × SlicerEvent) → List String
names [] = "done" ∷ []
names ((t, e) ∷ es) = event_name e ∷ names es

-- The events, and "done" at time `t`.
abbrev pub until_done : List (ℕ × SlicerEvent) → ℕ → List (ℕ × Round) → List (ℕ × Round)
until_done [] t rest = (t, event done) ∷ rest
until_done ((u, e) ∷ es) t rest = (u, event e) ∷ until_done es t rest

-- What an event makes of the loop's state.
pub record Went (l : LoopState) (o : Option Sliced) (n : Next) : Type 0 where
  next : LoopState
  goes : n ≡ go_on next
  pub got : next.sliced ≡ o
  kept : next.events_seen ≡ l.events_seen
  pub same : next.world.job.auto_print ≡ l.world.job.auto_print
  pub writes : next.world.writes ≡ []

-- No write of the store raises.
module _ (l : LoopState) (done_writes : l.world.writes ≡ []) where
  stored :
      (w : World)
      → w.job.auto_print ≡ l.world.job.auto_print
      → w.writes ≡ []
      → Went l l.sliced (throttled_store (record l { world = w }))
  unfolding throttled_store store touch put_record
  stored w e f =
      if_both (Went l l.sliced) (leb (l.last_write + write_interval_ms) w.now) (put_case w.writes f)
        (record { next = _; goes = refl; got = refl; kept = refl; same = e; writes = f })
    where
      put_case :
          (ws : List (Option String))
          → ws ≡ []
          → Went l l.sliced (
              after_write
                (record l { world = w })
                (put_record ws (record w { job = touch w.now w.job })))
      put_case ws g =
          subst
            (λ ws. Went l l.sliced (
              after_write (record l { world = w })
                (put_record ws (record w { job = touch w.now w.job }))))
            (sym g) first
        where
          first : Went l l.sliced (
              after_write
                (record l { world = w })
                (put_record [] (record w { job = touch w.now w.job })))
          first = record { next = _; goes = refl; got = refl; kept = refl; same = e; writes = f }

  set_phase_writes : (m : Option String) (w : World) → (set_phase m w).writes ≡ w.writes
  set_phase_writes none w = refl
  set_phase_writes (some m) w = refl

  set_progress_writes : (n : Option ℤ) (w : World) → (set_progress n w).writes ≡ w.writes
  set_progress_writes none w = refl
  set_progress_writes (some n) w = refl

  set_phase_same :
      (m : Option String) (w : World) → (set_phase m w).job.auto_print ≡ w.job.auto_print
  set_phase_same none w = refl
  set_phase_same (some m) w = refl

  set_progress_same :
      (n : Option ℤ) (w : World) → (set_progress n w).job.auto_print ≡ w.job.auto_print
  set_progress_same none w = refl
  set_progress_same (some n) w = refl

  on_event-Went : (e : SlicerEvent) → IsPlain e → Went l (sliced_by e l.sliced) (on_event e l)
  unfolding on_event on_progress
  on_event-Went (progress absent n m) p =
      stored _ (set_phase_same m (set_progress n l.world) ∙ set_progress_same n l.world)
        (set_phase_writes m (set_progress n l.world) ∙ set_progress_writes n l.world ∙ done_writes)
  on_event-Went (progress unreadable n m) p = stored l.world refl done_writes
  on_event-Went (progress (percent x) n m) p = stored _ refl done_writes
  on_event-Went (status none) p = record {
    next = l;
    goes = refl;
    got = refl;
    kept = refl;
    same = refl;
    writes = done_writes;
  }
  on_event-Went (status (some x)) p = stored _ refl done_writes
  on_event-Went (result (blob b) e s) p = record {
    next = _;
    goes = refl;
    got = refl;
    kept = refl;
    same = refl;
    writes = done_writes;
  }
  on_event-Went (other name) p = record {
    next = l;
    goes = refl;
    got = refl;
    kept = refl;
    same = refl;
    writes = done_writes;
  }
  on_event-Went (progress infinite n m) p = absurd p
  on_event-Went (result no_blob e s) p = absurd p
  on_event-Went (result (bad_blob x) e s) p = absurd p
  on_event-Went (error x) p = absurd p
  on_event-Went done p = absurd p

-- How the loop comes to its end.
pub record Stops (l : LoopState) (es : List (ℕ × SlicerEvent)) (r : LoopEnd) : Type 0 where
  pub final : LoopState
  pub stops : r ≡ loop_stopped final
  pub got : final.sliced ≡ last_result l.sliced es
  pub named : final.events_seen ≡ l.events_seen ++ names es
  pub same : final.world.job.auto_print ≡ l.world.job.auto_print
  pub writes : final.world.writes ≡ []

loop_step :
    (u : ℕ) (e : SlicerEvent) (rounds : List (ℕ × Round)) (l next : LoopState)
    → on_event e (seen e (clock u l)) ≡ go_on next
    → loop ((u, event e) ∷ rounds) l ≡ loop rounds next
unfolding loop
loop_step u e rounds l next g = rw (g, loop)

pub loop-Stops :
    (es : List (ℕ × SlicerEvent)) (t : ℕ) (rest : List (ℕ × Round)) (l : LoopState)
    → AllPlain es
    → l.world.writes ≡ []
    → Stops l es (loop (until_done es t rest) l)
unfolding loop on_event
loop-Stops [] t rest l p f = record {
  final = seen done (clock t l);
  stops = refl;
  got = refl;
  named = refl;
  same = refl;
  writes = f;
}
loop-Stops ((u, e) ∷ es) t rest l p f =
    let went = on_event-Went (seen e (clock u l)) f e p.0 in
    let tail = loop-Stops es t rest went.next p.1 went.writes in
    record {
      final = tail.final;
      stops = loop_step u e (until_done es t rest) l went.next went.goes ∙ tail.stops;
      got = tail.got ∙ ap (λ (o : Option Sliced). last_result o es) went.got;
      named =
          tail.named
          ∙ ap (λ (n : List String). n ++ names es) went.kept
          ∙ append_assoc l.events_seen (event_name e ∷ []) (names es);
      same = tail.same ∙ went.same;
      writes = tail.writes;
    }
