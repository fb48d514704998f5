-- ===== src/Tracking/Broker/Boundary.antt =====
-- What the first report of a job leaves of the job before.
use bambu_gateway.Prelude.{ℕ, ◌≡◌, refl, sym, ap, ◌∙◌, Bool, true, false, none, if◌then◌else◌}
use bambu_gateway.Prelude.Json.{Fields}
use bambu_gateway.Tracking.Reports.{merge}
use bambu_gateway.Tracking.Broker.{Library, Broker, new_broker}
use bambu_gateway.Tracking.Broker.Build.{build_snapshot}
use bambu_gateway.Tracking.Broker.Update.{is_boundary, forgets, reset_job, update}

-- A broker that has seen no report, with the number of snapshots and the source that waits.
abbrev pub without_history : Broker → Broker
without_history b = record (new_broker b.printer_id b.printer_file_available) {
  sequence = b.sequence;
  pending_source = b.pending_source;
}

fresh_either :
    (py : Library) (report : Fields) (b : Broker) (c : Bool)
    → forgets py report b ≡ true
    → (if c then reset_job py report (without_history b) else without_history b) ≡ without_history b
unfolding reset_job new_broker forgets
fresh_either py report b true h = rw (h, reset_job, forgets) refl
fresh_either py report b false h = refl

forgotten :
    (py : Library) (report : Fields) (b : Broker)
    → forgets py report b ≡ true
    → reset_job py report b ≡ without_history b
unfolding reset_job new_broker
forgotten py report b h = rw h refl

-- The first report of a job that the registered source does not wait for gives the snapshot, and
-- the whole state, that it gives a broker without any history but the number of its snapshots and
-- the source that waits: no identity, layer, mapping, tray, source or usage reference of the job
-- before is left.
pub update-without_history :
    (py : Library) (now : ℕ) (report : Fields) (b : Broker)
    → is_boundary py report b.raw ≡ true
    → forgets py report b ≡ true
    → update py now report b ≡ update py now report (without_history b)
unfolding update
update-without_history py now report b h k =
    ap (λ (c : Broker). build_snapshot py now none (record c { raw = merge c.raw report }))
      (rw h (forgotten py report b k) ∙ sym (fresh_either py report b _ k))
