-- ===== src/SliceJobs/Manager/Recovery.antt =====
-- What `recover_on_startup` leaves behind.
pub mod Resting
use mathlib.Core.Path.{subst}
use mathlib.Core.Option.{some-injective, none-ne-some}
use bambu_gateway.Prelude.{
  ℕ, ◌≡◌, ◌≢◌, refl, sym, ap, ◌∙◌, String, Bool, true, false, Option, none, some, List, [], ◌∷◌,
  ◌++◌, append-nil, append_assoc, arith, if◌then◌else◌, ◌==◌, string_eq, is_in, Option-cases,
  Bool-cases, if_both, inl, inr,
}
use bambu_gateway.Prelude.Dict
use bambu_gateway.Prelude.Dict.{Dict, lookup-insert}
use bambu_gateway.Prelude.Dict.Unique.{IsUnique}
use bambu_gateway.SliceJobs.{
  SliceJobStatus, queued, slicing, uploading, ready, failed, cancelled, status_eq, SliceJob, touch,
}
use bambu_gateway.SliceJobs.Persist.{JobStore, load, flush, upsert, list_all, values}
use bambu_gateway.SliceJobs.Persist.Durable.{Keyed, IsValid, upsert_loaded, load-flush}
use bambu_gateway.SliceJobs.Manager.{
  Manager, interrupt, healed_thumbnail, heal, put_store, enqueue, recover_as, recover_jobs,
  recover_on_startup,
}
use bambu_gateway.SliceJobs.Manager.Handled.{
  with_thumbnail, recovered_as, recovered, waiting_id, waiting, Handled, recover_as-Handled,
}

abbrev pub map_option : (SliceJob → SliceJob) → Option SliceJob → Option SliceJob
map_option f none = none
map_option f (some job) = some (f job)

abbrev pick_new : (SliceJob → SliceJob) → Option SliceJob → Option SliceJob → Option SliceJob
pick_new after none old = old
pick_new after (some job) old = some (after job)

inside_step :
    (k j : String) (job new other : SliceJob) (rest here old : Option SliceJob)
    → (k ≡ j → rest ≡ none)
    → here ≡ (if k == j then some new else old)
    → ((if k == j then some job else rest) ≡ some other → old ≡ some other)
    → rest ≡ some other
    → here ≡ some other
inside_step k j job new other rest here old absent h inside f =
    ground (arith, h, absent, inside, f, string_eq.eqb_iff k j)

-- Every job of a dictionary has been handled.
record AllHandled (after : SliceJob → SliceJob) (m : Manager) (jobs part : Dict String SliceJob)
    (r : Option Manager) : Type 0 where
  next : Manager
  done : r ≡ some next
  left : Dict String SliceJob
  there : load next.store ≡ some left
  found :
      (k : String) → Dict.lookup k left ≡ pick_new after (Dict.lookup k part) (Dict.lookup k jobs)
  ids_queued : next.queue ≡ m.queue ++ waiting (values part)

-- A key is the first entry's, or the others'.
found_step :
    (after : SliceJob → SliceJob) (k j : String) (job : SliceJob) (rest here old : Option SliceJob)
    → (k ≡ j → rest ≡ none)
    → here ≡ (if k == j then some (after job) else old)
    → pick_new after rest here ≡ pick_new after (if k == j then some job else rest) old
found_step after k j job none here old absent h = ground (arith, h, string_eq.eqb_iff k j)
found_step after k j job (some other) here old absent h =
    ground (arith, h, absent, string_eq.eqb_iff k j)

module _ (extract : List ℕ → ℕ → Option String) (now : String → ℕ)
    (blobs : Dict String (List ℕ)) where
  recover_jobs_step :
      (m next : Manager) (job : SliceJob) (jobs : List SliceJob)
      → recover_as job.status extract (now job.id) job m ≡ some next
      → recover_jobs extract now (job ∷ jobs) m ≡ recover_jobs extract now jobs next
  unfolding recover_jobs
  recover_jobs_step m next job jobs e = rw (e, recover_jobs)

  recover_jobs-AllHandled :
      (m : Manager) (jobs part : Dict String SliceJob)
      → m.store.blobs ≡ blobs
      → load m.store ≡ some jobs
      → Keyed part
      → IsUnique part
      → ((k : String) (job : SliceJob)
          → Dict.lookup k part ≡ some job
          → Dict.lookup k jobs ≡ some job)
      → AllHandled
          (recovered extract blobs now)
          m
          jobs
          part
          (recover_jobs extract now (values part) m)
  unfolding recover_jobs waiting Dict.lookup recovered
  recover_jobs-AllHandled m jobs [] b l keyed unique inside = record {
    next = m;
    done = refl;
    left = jobs;
    there = l;
    found = λ k. refl;
    ids_queued = rw append-nil;
  }
  recover_jobs-AllHandled m jobs ((k, job) ∷ part) b l keyed unique inside =
      let rest =
        recover_jobs-AllHandled h.next h.left part (h.blobs ∙ b) h.there keyed.1 unique.1 inside' in
      record {
        next = rest.next;
        done = recover_jobs_step m h.next job (values part) h.done ∙ rest.done;
        left = rest.left;
        there = rest.there;
        found = λ j.
            rest.found j
            ∙ found_step (recovered extract blobs now) k j job _ _ _ (absent j) (here j);
        ids_queued =
            rest.ids_queued
            ∙ ap (λ q. q ++ waiting (values part)) h.ids_queued
            ∙ append_assoc m.queue _ _;
      }
    where
      h :
          Handled m jobs job
            (recovered extract blobs now job)
            (waiting_id job.status job.id)
            (recover_as job.status extract (now job.id) job m)
      h = rw (← b) (
          recover_as-Handled m jobs job l job.status extract (now job.id)
            (inside job.id job (rw (keyed.0, (string_eq.eqb_iff k k).1 refl))))

      absent : (j : String) → k ≡ j → Dict.lookup j part ≡ none
      absent j e = rw (← e) unique.0

      here :
          (j : String)
          → Dict.lookup j h.left
            ≡ (if k == j then some (recovered extract blobs now job) else Dict.lookup j jobs)
      here j = h.found j ∙ (rw keyed.0)

      inside' :
          (j : String) (other : SliceJob)
          → Dict.lookup j part ≡ some other
          → Dict.lookup j h.left ≡ some other
      inside' j other = inside_step k j job _ other _ _ _ (absent j) (here j) (inside j other)

list_all_loaded :
    (s : JobStore) (jobs : Dict String SliceJob)
    → load s ≡ some jobs
    → list_all s ≡ some (values jobs)
unfolding list_all
list_all_loaded s jobs l = rw (l, list_all)

-- Recovery over a loaded store whose jobs stand under their ids succeeds: every job becomes what
-- `recovered` makes of it, no other job appears, and the ids of the queued jobs are queued behind
-- what the queue holds, in the store's order.
pub recover_on_startup_lem :
    (extract : List ℕ → ℕ → Option String) (now : String → ℕ) (m : Manager)
    (jobs : Dict String SliceJob)
    → load m.store ≡ some jobs
    → IsValid jobs
    → (next : Manager) × (left : Dict String SliceJob) × (recover_on_startup extract now m
        ≡ some next)
      × (load next.store ≡ some left)
      × ((k : String)
          → Dict.lookup k left
            ≡ map_option (recovered extract m.store.blobs now) (Dict.lookup k jobs))
      × (next.queue ≡ m.queue ++ waiting (values jobs))
unfolding recover_on_startup
recover_on_startup_lem extract now m jobs l valid =
    let h =
      recover_jobs-AllHandled extract now m.store.blobs m jobs jobs refl l valid.keyed valid.unique
        (λ k job f. f) in
    (
      h.next,
      h.left,
      rw (list_all_loaded m.store jobs l, recover_on_startup) h.done,
      h.there,
      λ k. h.found k ∙ same (Dict.lookup k jobs),
      h.ids_queued,
    )
  where
    same :
        (o : Option SliceJob)
        → pick_new (recovered extract m.store.blobs now) o o
          ≡ map_option (recovered extract m.store.blobs now) o
    same none = refl
    same (some job) = refl
