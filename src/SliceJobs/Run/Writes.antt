-- ===== src/SliceJobs/Run/Writes.antt =====
-- Where the writes of a run leave it, whether they are done or raise.
use bambu_gateway.Prelude.{refl, String, Option, none, some, List, [], ◌∷◌, arith}
use bambu_gateway.SliceJobs.{SliceJobStatus, ready, failed, cancelled, is_terminal, touch, Message}
use bambu_gateway.SliceJobs.Run.Effects.{
  World, Written, wrote, unwritten, put_record, kind_ready, kind_printing, kind_failed, store,
  set_status, then_notify, fail,
}
use bambu_gateway.SliceJobs.Run.Print.{printed_ready, ready_only}
use bambu_gateway.SliceJobs.Run.Steps.{
  Moves, written, On, Behind, Moves-is_terminal, report, Done, written_as, notify-Done,
}

write_case :
    (P : Written → Type 0) (ws : List (Option String)) (w : World)
    → ((rest : List (Option String))
        → P (wrote (record w { stored = w.job ∷ w.stored; writes = rest })))
    → ((e : String) (rest : List (Option String)) → P (unwritten e (record w { writes = rest })))
    → P (put_record ws w)
unfolding put_record
write_case P [] w good bad = good w.writes
write_case P (none ∷ rest) w good bad = good rest
write_case P (some e ∷ rest) w good bad = bad e rest

-- A write that keeps the status, or goes on to another one.
abbrev pub Stays : SliceJobStatus → Written → Type 0
Stays s (wrote w) = On s w
Stays s (unwritten e w) = On s w

abbrev pub Goes : SliceJobStatus → SliceJobStatus → Written → Type 0
Goes s t (wrote w) = On t w
Goes s t (unwritten e w) = Behind s w

-- The end of a run, or an exception on the way to it.
abbrev pub Ends : SliceJobStatus → Written → Type 0
Ends s (wrote w) = Done w
Ends s (unwritten e w) = Behind s w

module _ {s : SliceJobStatus} (w : World) (h : On s w) where
  pub store-Stays : Moves s s → Stays s (store w)
  unfolding store touch
  store-Stays m =
      write_case (Stays s) w.writes (record w { job = touch w.now w.job })
        (λ rest. record {
          status = h.status;
          trail = written_as _ w.stored h.trail m h.status h.bounded;
          bounded = h.bounded;
          quiet = h.quiet;
          unprinted = h.unprinted;
        })
        (λ e rest. record {
          status = h.status;
          trail = h.trail;
          bounded = h.bounded;
          quiet = h.quiet;
          unprinted = h.unprinted;
        })

  pub set_status-Goes :
      (t : SliceJobStatus) (phase : Option String) → Moves s t → Goes s t (set_status t phase w)
  unfolding set_status store touch
  set_status-Goes t phase m =
      write_case (Goes s t) w.writes _
        (λ rest. record {
          status = refl;
          trail = written _ w.stored h.trail m h.bounded;
          bounded = h.bounded;
          quiet = h.quiet;
          unprinted = h.unprinted;
        })
        (λ e rest. record {
          trail = h.trail;
          bounded = h.bounded;
          quiet = h.quiet;
          active = Moves-is_terminal m;
        })

  pub set_status-cancelled : Moves s cancelled → Ends s (set_status cancelled none w)
  unfolding set_status report is_terminal store touch
  set_status-cancelled m =
      write_case (Ends s) w.writes _
        (λ rest. record {
          terminal = refl;
          trail = written _ w.stored h.trail m h.bounded;
          newest = (w.stored, refl);
          reported = ground (arith, h.quiet);
        })
        (λ e rest. record {
          trail = h.trail;
          bounded = h.bounded;
          quiet = h.quiet;
          active = Moves-is_terminal m;
        })

  pub ready_only-Ends : Moves s ready → Ends s (ready_only w)
  unfolding ready_only report is_terminal set_status store touch
  ready_only-Ends m =
      write_case (λ r. Ends s (then_notify kind_ready r)) w.writes _
        (λ rest.
          notify-Done kind_ready _ w.stored refl refl (written _ w.stored h.trail m h.bounded)
            h.quiet (ground (arith, h.unprinted)))
        (λ e rest. record {
          trail = h.trail;
          bounded = h.bounded;
          quiet = h.quiet;
          active = Moves-is_terminal m;
        })

  pub printed_ready-Ends : Moves s ready → Ends s (printed_ready w)
  unfolding printed_ready report is_terminal set_status store touch
  printed_ready-Ends m =
      write_case (λ r. Ends s (then_notify kind_printing r)) w.writes _
        (λ rest.
          notify-Done kind_printing _ w.stored refl refl
            (written _ w.stored h.trail m (ground arith)) h.quiet refl)
        (λ e rest. record {
          trail = h.trail;
          bounded = ground arith;
          quiet = h.quiet;
          active = Moves-is_terminal m;
        })

-- Also after a write that has raised.
pub fail-Ends :
    {s : SliceJobStatus} (w : World) (message : Message)
    → Behind s w
    → Moves s failed
    → Ends s (fail message w)
unfolding fail report is_terminal set_status store touch
fail-Ends {s} w message h m =
    write_case (λ r. Ends s (then_notify kind_failed r)) w.writes _
      (λ rest.
        notify-Done kind_failed _ w.stored refl refl (written _ w.stored h.trail m h.bounded)
          h.quiet refl)
      (λ e rest. record {
        trail = h.trail;
        bounded = h.bounded;
        quiet = h.quiet;
        active = h.active;
      })
