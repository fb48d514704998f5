-- ===== src/Cloud/Submit/Frames.antt =====
-- The frames of a submission.
use bambu_gateway.Prelude.{
  ◌≡◌, ◌↔◌, refl, String, Bool, true, false, not, ◌&&◌, ◌||◌, none, List, [], ◌∷◌, arith,
  if◌then◌else◌, ◌==◌,
}
use bambu_gateway.Prelude.Int.{ℤ, pos, int_eq}
use bambu_gateway.Cloud.Submit.{
  Frame, progress, done, error, Wait, event, timeout, relay, submit_print, run_cloud_print,
}

-- An event that ends the wait.
unfoldable pub ends_wait : Wait → Bool
ends_wait timeout = true
ends_wait (event stage code msg) = stage == pos 6 || stage == pos 7

unfoldable pub any_end : List Wait → Bool
any_end [] = false
any_end (w ∷ ws) = ends_wait w || any_end ws

-- Progress frames, and then a last one.
unfoldable pub one_terminal : List Frame → Bool
one_terminal [] = false
one_terminal (progress stage code msg ∷ frames) = one_terminal frames
one_terminal (done ∷ frames) = elim frames [ [] ↦ true | _ ∷ _ ↦ false ]
one_terminal (error code msg ∷ frames) = elim frames [ [] ↦ true | _ ∷ _ ↦ false ]

-- The first event that ends the wait is the end of the print.
unfoldable pub finishes : List Wait → Bool
finishes [] = false
finishes (timeout ∷ ws) = false
finishes (event stage code msg ∷ ws) =
    let rest = finishes ws in
    if stage == pos 6 then true else if stage == pos 7 then false else rest

terminal_of : (ws : List Wait) → any_end ws ≡ true → one_terminal (relay ws) ≡ true
unfolding any_end ends_wait one_terminal relay
terminal_of [] h = cc
terminal_of (timeout ∷ ws) h = refl
terminal_of (event stage code msg ∷ ws) h = ground (arith, terminal_of ws)

relay_case :
    (six seven : Bool) (stage code : ℤ) (msg text : String) (frames : List Frame) (f : Bool)
    → ((run_cloud_print frames ≡ none) ↔ (f ≡ true))
    → (run_cloud_print (
          if six
          then done ∷ []
          else if seven
          then error code text ∷ []
          else progress stage code msg ∷ frames)
        ≡ none)
      ↔ ((if six then true else if seven then false else f) ≡ true)
unfolding run_cloud_print
relay_case true seven stage code msg text frames f h = (λ e. refl, λ e. refl)
relay_case false true stage code msg text frames f h = (λ e. cc, λ e. cc)
relay_case false false stage code msg text frames f h = h

taken_case :
    (ok : Bool) (code : ℤ) (text : String) (frames : List Frame) (f : Bool)
    → ((run_cloud_print frames ≡ none) ↔ (f ≡ true))
    → (run_cloud_print (if ok then frames else error code text ∷ []) ≡ none) ↔ ((ok && f) ≡ true)
unfolding run_cloud_print
taken_case true code text frames f h = h
taken_case false code text frames f h = (λ e. cc, λ e. cc)

done_of : (ws : List Wait) → (run_cloud_print (relay ws) ≡ none) ↔ (finishes ws ≡ true)
unfolding run_cloud_print finishes relay
done_of [] = (λ h. cc, λ h. cc)
done_of (timeout ∷ ws) = (λ h. cc, λ h. cc)
done_of (event stage code msg ∷ ws) =
    relay_case (stage == pos 6) (stage == pos 7) stage code msg _ (relay ws) (finishes ws)
      (done_of ws)

-- A submission that gets an end, an error or a timeout gives progress frames and then exactly one
-- last frame.
pub submit_print-one_terminal :
    (taken : Bool) (rc : ℤ) (ws : List Wait)
    → any_end ws ≡ true
    → one_terminal (submit_print taken rc ws) ≡ true
unfolding submit_print one_terminal
submit_print-one_terminal true rc ws h = refl
submit_print-one_terminal false rc ws h = ground (arith, terminal_of ws)

-- The caller is told that the job has reached the printer exactly when the printer's slot was free,
-- the plugin took the job, and the stage of the finished print came before any error and timeout.
pub run_cloud_print-submit_print :
    (taken : Bool) (rc : ℤ) (ws : List Wait)
    → (run_cloud_print (submit_print taken rc ws) ≡ none)
      ↔ ((not taken && rc == pos 0 && finishes ws) ≡ true)
unfolding submit_print run_cloud_print
run_cloud_print-submit_print true rc ws = (λ h. cc, λ h. cc)
run_cloud_print-submit_print false rc ws =
    taken_case (rc == pos 0) rc _ (relay ws) (finishes ws) (done_of ws)
