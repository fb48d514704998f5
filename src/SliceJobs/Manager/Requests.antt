-- ===== src/SliceJobs/Manager/Requests.antt =====
-- Submissions and cancellations.
use bambu_gateway.Prelude.{
  ℕ, ◌≡◌, refl, ap, ◌∙◌, String, Bool, true, false, Option, none, some, List, [], ◌∷◌, ◌++◌, arith,
  Option-cases, Bool-cases, inl, inr, ◌&&◌, if◌then◌else◌, ◌==◌, string_eq, not,
}
use bambu_gateway.Prelude.Dict
use bambu_gateway.Prelude.Dict.{Dict, lookup-insert}
use bambu_gateway.SliceJobs.{SliceJob, is_terminal, Request, new_job, touch}
use bambu_gateway.SliceJobs.Persist.{JobStore, load, get, flush, upsert}
use bambu_gateway.SliceJobs.Persist.Durable.{upsert_loaded, load-flush, get_loaded}
use bambu_gateway.SliceJobs.Manager.{Manager, submit, cancel, enqueue, register, set_event}

abbrev pub is_active : Option SliceJob → Bool
is_active none = false
is_active (some job) = not (is_terminal job.status)

abbrev pub raised : Option Bool → Option Bool
raised none = none
raised (some e) = some true

set_event_lem :
    (id : String) (m : Manager) (j : String)
    → ((set_event id m).store ≡ m.store)
      × ((set_event id m).queue ≡ m.queue)
      × (Dict.lookup j (set_event id m).cancel_events ≡ (
          if id == j
          then raised (Dict.lookup j m.cancel_events)
          else Dict.lookup j m.cancel_events))
set_event_lem id m j = elim (Option-cases (Dict.lookup id m.cancel_events)) [
  | inl e ↦ ground (arith, e, string_eq.eqb_iff id j)
  | inr (v, e) ↦ ground (arith, e, lookup-insert id j true m.cancel_events, string_eq.eqb_iff id j)
]

-- A cancellation over a loaded store tells whether the job is there and not over, and leaves the
-- store and the queue; of an active job the event, if it has one, is set, and no other event changes.
pub cancel_lem :
    (id : String) (m : Manager) (jobs : Dict String SliceJob) (j : String)
    → load m.store ≡ some jobs
    → let active = is_active (Dict.lookup id jobs) in
      (next : Manager) × (cancel id m ≡ some (next, active))
      × (next.store ≡ m.store)
      × (next.queue ≡ m.queue)
      × (Dict.lookup j next.cancel_events ≡ (
          if active && id == j
          then raised (Dict.lookup j m.cancel_events)
          else Dict.lookup j m.cancel_events))
unfolding cancel
cancel_lem id m jobs j l = elim (Option-cases (Dict.lookup id jobs)) [
  | inl e ↦ (m, rw (get_loaded id m.store jobs l, e, cancel), refl, refl, rw e)
  | inr (job, e) ↦ elim (Bool-cases (is_terminal job.status)) [
    | inl t ↦ (m, rw (get_loaded id m.store jobs l, e, cancel, t), refl, refl, rw (e, t))
    | inr t ↦
        let (store, queue, events) = set_event_lem id m j in
        (
          set_event id m,
          rw (get_loaded id m.store jobs l, e, cancel, t),
          store,
          queue,
          rw (e, t) events,
        )
  ]
]

kept {ℓ} :
    {V : Type ℓ} (k : String) (v : V) (m : Dict String V)
    → Dict.lookup k (Dict.insert k v m) ≡ some v
kept k v m = lookup-insert k k v m ∙ (rw ((string_eq.eqb_iff k k).1 refl))

register_lem :
    (put : Bool) (id : String) (m : Manager)
    → ((register put id m).store ≡ m.store)
      × (Dict.lookup id (register put id m).cancel_events ≡ some false)
      × ((register put id m).queue ≡ (if put then m.queue ++ id ∷ [] else m.queue))
unfolding enqueue
register_lem true id m = (refl, kept id false m.cancel_events, refl)
register_lem false id m = (refl, kept id false m.cancel_events, refl)

upsert_new :
    (id : String) (now : ℕ) (path : String) (r : Request) (s : JobStore)
    (blobs : Dict String (List ℕ)) (jobs : Dict String SliceJob)
    → load s ≡ some jobs
    → upsert now (new_job id now path r) (record s { blobs = blobs })
      ≡ some (flush (Dict.insert id (new_job id now path r) jobs) (record s { blobs = blobs }))
unfolding touch new_job load
upsert_new id now path r s blobs jobs l =
    upsert_loaded now (new_job id now path r) (record s { blobs = blobs }) jobs l

flush-blobs : (jobs : Dict String SliceJob) (s : JobStore) → (flush jobs s).blobs ≡ s.blobs
unfolding flush
flush-blobs jobs s = refl

-- A submission over a loaded store succeeds: the store then holds the new job, queued, under its id
-- and else what it held, the input is kept as a blob, the job's event is there and not set, and the
-- id goes to the end of the queue if it is to be queued.
pub submit_lem :
    (id : String) (now : ℕ) (path : String) (bytes : List ℕ) (r : Request) (put : Bool)
    (m : Manager) (jobs : Dict String SliceJob) (k : String)
    → load m.store ≡ some jobs
    → (next : Manager) × (submit id now path bytes r put m ≡ some (next, new_job id now path r))
      × (get k next.store
          ≡ some (if id == k then some (new_job id now path r) else Dict.lookup k jobs))
      × (Dict.lookup path next.store.blobs ≡ some bytes)
      × (Dict.lookup id next.cancel_events ≡ some false)
      × (next.queue ≡ (if put then m.queue ++ id ∷ [] else m.queue))
unfolding submit
submit_lem id now path bytes r put m jobs k l =
    let blobs = Dict.insert path bytes m.store.blobs in
    let job = new_job id now path r in
    let left = Dict.insert id job jobs in
    let s = flush left (record (m.store) { blobs = blobs }) in
    let m' = record m { store = s } in
    let (store, event, queue) = register_lem put id m' in
    (
      register put id m',
      rw (submit, upsert_new id now path r m.store blobs jobs l),
      rw store (get_loaded k s left (load-flush left _) ∙ ap some (lookup-insert id k job jobs)),
      rw (store, flush-blobs left (record (m.store) { blobs = blobs }))
          (kept path bytes m.store.blobs),
      event,
      queue,
    )
