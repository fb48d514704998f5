-- ===== src/SliceJobs/Manager/Handled.antt =====
-- What the recovery makes of one job.
use bambu_gateway.Prelude.{
  ℕ, ◌≡◌, refl, ◌∙◌, String, Option, none, some, List, [], ◌∷◌, ◌++◌, append-nil, arith,
  if◌then◌else◌, ◌==◌, string_eq, Bool-cases, inl, inr,
}
use bambu_gateway.Prelude.Dict
use bambu_gateway.Prelude.Dict.{Dict, lookup-insert}
use bambu_gateway.SliceJobs.{
  SliceJobStatus, queued, slicing, uploading, ready, failed, cancelled, status_eq, SliceJob, touch,
}
use bambu_gateway.SliceJobs.Persist.{load, flush}
use bambu_gateway.SliceJobs.Persist.Durable.{upsert_loaded, load-flush}
use bambu_gateway.SliceJobs.Manager.{
  Manager, interrupt, healed_thumbnail, heal, put_store, enqueue, recover_as,
}

abbrev pub with_thumbnail : ℕ → SliceJob → Option String → SliceJob
with_thumbnail now job none = job
with_thumbnail now job (some t) =
    if t == "" then job else touch now (record job { thumbnail = some t })

abbrev pub recovered_as :
    SliceJobStatus → (List ℕ → ℕ → Option String) → Dict String (List ℕ) → ℕ → SliceJob → SliceJob
recovered_as queued extract blobs now job = job
recovered_as slicing extract blobs now job = touch now (interrupt job)
recovered_as uploading extract blobs now job = touch now (interrupt job)
recovered_as ready extract blobs now job =
    with_thumbnail now job (healed_thumbnail extract blobs job)
recovered_as failed extract blobs now job = job
recovered_as cancelled extract blobs now job = job

-- What a job becomes: an interrupted one fails, a ready one may get a thumbnail.
unfoldable pub recovered :
    (List ℕ → ℕ → Option String) → Dict String (List ℕ) → (String → ℕ) → SliceJob → SliceJob
recovered extract blobs now job = recovered_as job.status extract blobs (now job.id) job

abbrev pub waiting_id : SliceJobStatus → String → List String
waiting_id queued id = id ∷ []
waiting_id slicing id = []
waiting_id uploading id = []
waiting_id ready id = []
waiting_id failed id = []
waiting_id cancelled id = []

-- The ids of the queued jobs, in order.
unfoldable pub waiting : List SliceJob → List String
waiting [] = []
waiting (job ∷ jobs) = waiting_id job.status job.id ++ waiting jobs

-- One job has become another, and ids have been queued.
pub record Handled (m : Manager) (jobs : Dict String SliceJob) (job new : SliceJob)
    (ids : List String) (r : Option Manager) : Type 0 where
  pub next : Manager
  pub done : r ≡ some next
  pub left : Dict String SliceJob
  pub there : load next.store ≡ some left
  pub found :
      (k : String) → Dict.lookup k left ≡ (if job.id == k then some new else Dict.lookup k jobs)
  pub blobs : next.store.blobs ≡ m.store.blobs
  pub ids_queued : next.queue ≡ m.queue ++ ids

module _ (m : Manager) (jobs : Dict String SliceJob) (job : SliceJob)
    (l : load m.store ≡ some jobs) where
  put_store-Handled :
      (now : ℕ) (new : SliceJob)
      → new.id ≡ job.id
      → Handled m jobs job (touch now new) [] (put_store now new m)
  put_store-Handled now new e = record {
    next = record m { store = flush (Dict.insert new.id (touch now new) jobs) m.store };
    done = rw (upsert_loaded now new m.store jobs l);
    left = Dict.insert new.id (touch now new) jobs;
    there = load-flush (Dict.insert new.id (touch now new) jobs) m.store;
    found = λ k. lookup-insert new.id k (touch now new) jobs ∙ rw e;
    blobs = unfold flush in refl;
    ids_queued = rw append-nil;
  }

  -- The store's jobs stay as they are.
  same-Handled :
      (next : Manager) (ids : List String)
      → Dict.lookup job.id jobs ≡ some job
      → next.store ≡ m.store
      → next.queue ≡ m.queue ++ ids
      → Handled m jobs job job ids (some next)
  same-Handled next ids f e q = record {
    next = next;
    done = refl;
    left = jobs;
    there = rw e l;
    found = unchanged;
    blobs = rw e;
    ids_queued = q;
  }
    where
      unchanged :
          (k : String) → Dict.lookup k jobs ≡ (if job.id == k then some job else Dict.lookup k jobs)
      unchanged k = ground (arith, f, string_eq.eqb_iff job.id k)

  left_alone : Dict.lookup job.id jobs ≡ some job → Handled m jobs job job [] (some m)
  left_alone f = same-Handled m [] f refl (rw append-nil)

  heal-Handled :
      (now : ℕ) (t : Option String)
      → Dict.lookup job.id jobs ≡ some job
      → Handled m jobs job (with_thumbnail now job t) [] (heal now job m t)
  heal-Handled now none f = left_alone f
  heal-Handled now (some t) f = elim (Bool-cases (t == "")) [
    | inl e ↦ rw e (left_alone f)
    | inr e ↦ rw e (put_store-Handled now (record job { thumbnail = some t }) refl)
  ]

  pub recover_as-Handled :
      (s : SliceJobStatus) (extract : List ℕ → ℕ → Option String) (now : ℕ)
      → Dict.lookup job.id jobs ≡ some job
      → Handled m jobs job
          (recovered_as s extract m.store.blobs now job)
          (waiting_id s job.id)
          (recover_as s extract now job m)
  unfolding recover_as interrupt enqueue
  recover_as-Handled queued extract now f =
      same-Handled (enqueue job.id m) (job.id ∷ []) f refl refl
  recover_as-Handled slicing extract now f = put_store-Handled now (interrupt job) refl
  recover_as-Handled uploading extract now f = put_store-Handled now (interrupt job) refl
  recover_as-Handled ready extract now f =
      heal-Handled now (healed_thumbnail extract m.store.blobs job) f
  recover_as-Handled failed extract now f = left_alone f
  recover_as-Handled cancelled extract now f = left_alone f
