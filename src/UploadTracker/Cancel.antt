-- ===== src/UploadTracker/Cancel.antt =====
-- Cancellation over any sequence of calls on one upload.
use mathlib.Core.Path.{subst}
use bambu_gateway.Prelude.{
  ℕ, ◌+◌, ◌≡◌, refl, Bool, true, false, ◌||◌, String, List, [], ◌∷◌, arith, if◌then◌else◌,
}
use bambu_gateway.UploadTracker.{
  UploadState, Outcome, done, raised, advance, complete, cancel, fail, set_status,
}

pub data Call : Type 0 where
  advances : ℕ → Call
  completes cancels : Call
  fails sets_status : String → Call

abbrev after : Outcome → UploadState
after (done u) = u
after (raised u) = u

pub step : Call → UploadState → UploadState
step (advances n) u = after (advance n u)
step completes u = complete u
step cancels u = cancel u
step (fails e) u = fail e u
step (sets_status s) u = set_status s u

pub run : List Call → UploadState → UploadState
run [] u = u
run (c ∷ cs) u = run cs (step c u)

abbrev is_completion : Call → Bool
is_completion completes = true
is_completion _ = false

abbrev pub any_completes : List Call → Bool
any_completes [] = false
any_completes (c ∷ cs) = is_completion c || any_completes cs

-- The bytes counted once the upload `u` is cancelled, by whether `complete` has been called since.
abbrev pub counted : Bool → UploadState → ℕ
counted completed u = if completed then u.total_bytes else u.bytes_sent

record IsStopped (completed : Bool) (u v : UploadState) : Type 0 where
  refused : v.cancelled ≡ true
  total : v.total_bytes ≡ u.total_bytes
  bytes : v.bytes_sent ≡ counted completed u

refused_case :
    (n : ℕ) (b : Bool) (u v : UploadState)
    → IsStopped b u v
    → (cancelled : Bool) → cancelled ≡ true
    → IsStopped b u
        (after (if cancelled then raised v else done (record v { bytes_sent = v.bytes_sent + n })))
refused_case n b u v h true e = h
refused_case n b u v h false e = absurd cc

step-IsStopped :
    (c : Call) (b : Bool) (u v : UploadState)
    → IsStopped b u v
    → IsStopped (is_completion c || b) u (step c v)
unfolding step advance complete cancel fail set_status
step-IsStopped (advances n) b u v h = refused_case n b u v h v.cancelled h.refused
step-IsStopped completes b u v h = record { refused = h.refused; total = h.total; bytes = h.total }
step-IsStopped cancels b u v h = record { refused = refl; total = h.total; bytes = h.bytes }
step-IsStopped (fails e) b u v h = record { refused = h.refused; total = h.total; bytes = h.bytes }
step-IsStopped (sets_status s) b u v h = record {
  refused = h.refused;
  total = h.total;
  bytes = h.bytes;
}

run-IsStopped :
    (cs : List Call) (b : Bool) (u v : UploadState)
    → IsStopped b u v
    → IsStopped (b || any_completes cs) u (run cs v)
unfolding run
run-IsStopped [] b u v h = subst (λ x. IsStopped x u v) (ground arith) h
run-IsStopped (c ∷ cs) b u v h =
    subst (λ x. IsStopped x u (run cs (step c v))) (ground arith)
      (run-IsStopped cs (is_completion c || b) u (step c v) (step-IsStopped c b u v h))

-- Whatever calls follow a cancellation, `complete` and `fail` among them, every later chunk is
-- refused, and the bytes counted are the total if `complete` is among the calls and else those of
-- the cancellation.
pub cancel_sticks :
    (u : UploadState) (cs : List Call) (n : ℕ)
    → let v = run cs (cancel u) in
      (advance n v ≡ raised v) × (v.bytes_sent ≡ counted (any_completes cs) u)
unfolding cancel advance
cancel_sticks u cs n =
    let h =
      run-IsStopped cs false u (record u { cancelled = true; status = "cancelled" })
        (record { refused = refl; total = refl; bytes = refl }) in
    (rw h.refused refl, h.bytes)
